-- ===== src/Metrics/Tests.antt =====
-- A connection that is opened, counted and closed, beside another that stays.
use next_socks.Prelude.{List, [], ◌∷◌, arith}
use next_socks.Net.{ip_v4, SocketAddr}
use next_socks.Metrics.{connect, udp, new, register, unregister, add_up, record_error}
use next_socks.Metrics.History.{
  Op, open_conn, close_conn, count_up, fail_with, act, act_all, ProperAll, Balanced, new-Balanced,
  act_all-Balanced,
}

abbrev peer : SocketAddr
peer = record { ip = ip_v4 (5 ∷ 6 ∷ 7 ∷ 8 ∷ []); port = 4000 }

abbrev ops : List Op
ops =
    open_conn peer [] connect
    ∷ open_conn peer [] udp
    ∷ count_up 1 5
    ∷ close_conn 1
    ∷ fail_with 5
    ∷ []

ops-ProperAll : ProperAll ops new
unfolding act register unregister add_up record_error new
ops-ProperAll = (ground arith, (ground arith, (tt, ((λ e. cc), (ground arith, tt)))))

act_all-Balanced_example : Balanced (act_all ops new)
act_all-Balanced_example = act_all-Balanced ops new ops-ProperAll new-Balanced
