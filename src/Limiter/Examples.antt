-- ===== src/Limiter/Examples.antt =====
-- The bound for a client that archives channels for two minutes.
use aegis_claw.Base.{ℕ, ◌+◌, ◌-◌, ◌*◌, ◌≤◌, ◌≡◌, refl, [], ◌∷◌, some, arith, List}
use aegis_claw.Base.Text.{text, same}
use aegis_claw.Base.Assoc.{lookup, insert}
use aegis_claw.Limiter.{text_key, Limit, limits, minute, refill, allow}
use aegis_claw.Limiter.Bound.{InOrder, granted, granted_bound}

abbrev archive_limit : Limit
archive_limit = record { max = 6; window = minute }

archive_known : lookup text_key (text "channel_archive") limits ≡ some archive_limit
unfolding lookup same
archive_known = refl

abbrev times : List ℕ
times = 1 ∷ 2 ∷ 3 ∷ 4 ∷ 5 ∷ 6 ∷ 60000000000 ∷ []

-- Seven calls at the start of a window let six through, and the refill lets the eighth through.
seven_of_eight : granted [] (text "10.0.0.7") (text "channel_archive") (0 ∷ times) ≡ 7
unfolding granted allow refill lookup insert same
seven_of_eight = refl

in_order : InOrder 0 120000000000 times
in_order = omega arith

granted_bound_example :
    granted [] (text "10.0.0.7") (text "channel_archive") (0 ∷ times) * archive_limit.window
    ≤ archive_limit.max * archive_limit.window + archive_limit.max * (120000000000 - 0)
unfolding lookup
granted_bound_example =
    granted_bound (text "10.0.0.7") (text "channel_archive") archive_limit [] 0 120000000000 times
      archive_known refl refl in_order
