-- ===== src/Store/Reads/Window.antt =====
-- cmd/store/store_dispatch.go: which messages channel.get_messages returns.
use aegis_claw.Base.{ℕ, zero, suc, ◌<◌, ◌≡◌, refl, List, [], ◌∷◌, keep, take, arith}
use aegis_claw.Base.Json.{ℤ, Fields}
use aegis_claw.Store.Payload.{Opt}
use aegis_claw.Store.Reads.{wanted, collect, limit_of}

-- The loop of channel.get_messages returns the first `left` of the messages with a greater number that
-- match the filter, in their order.
pub collect-take :
    (since : ℤ) (filter : Opt Fields) (left : ℕ) (ms : List Fields)
    → 0 < left
    → collect since filter left ms ≡ take left (keep (wanted since filter) ms)
unfolding collect
collect-take since filter (suc left) [] h = refl
collect-take since filter (suc zero) (m ∷ ms) h = ground (arith, collect-take since filter 1 ms h)
collect-take since filter (suc (suc left)) (m ∷ ms) h = ground (
  arith,
  collect-take since filter (suc (suc left)) ms h,
  collect-take since filter (suc left) ms _,
)
collect-take since filter zero ms h = ground arith

limit_positive : (payload : Fields) → 0 < limit_of payload
limit_positive payload = ground arith
