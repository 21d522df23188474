-- ===== src/Permissions/Grants/Consistent.antt =====
-- The well-formedness of the durable state: one grant and one visibility rule for each pair of
-- subject and capability, and requests numbered in order.
use aegis_claw.Base.{
  ℕ, ◌+◌, ◌≡◌, refl, sym, ap, ◌∙◌, ◌≤◌, inl, inr, Bool, false, ◌&&◌, List, [], ◌∷◌, ◌++◌, arith,
  Bool-cases, any, length,
}
use aegis_claw.Base.Text.{Text, same, same_comm, eq_of_same}
use aegis_claw.Base.Decimal.{decimal-injective}
use aegis_claw.Base.Distinct.{Distinct, keep-Distinct, upsert-Distinct}
use aegis_claw.Permissions.Types.{Grant, VisibilityRule, Request, State, new_state}
use aegis_claw.Permissions.Source.{is_micro_vm_source}
use aegis_claw.Permissions.Grants.{
  is_pair, is_rule, added, request_id, grant_capability, revoke_capability, set_visibility,
  record_request,
}

abbrev pub same_pair : Grant → Grant → Bool
same_pair a b = is_pair a.subject a.capability b

abbrev pub same_rule : VisibilityRule → VisibilityRule → Bool
same_rule a b = is_rule a.subject a.capability b

-- The requests are "perm-req-<n+1>", "perm-req-<n+2>" and so on.
abbrev pub Numbered : ℕ → List Request → Type 0
Numbered n [] = Unit
Numbered n (r ∷ rs) = (r.id ≡ request_id (n + 1)) × Numbered (n + 1) rs

pub record IsConsistent (s : State) : Type 0 where
  pub grants_distinct : Distinct same_pair s.grants
  pub rules_distinct : Distinct same_rule s.visibility
  pub requests_numbered : Numbered 0 s.requests

same_pair_comm : (a b : Grant) → same_pair a b ≡ same_pair b a
same_pair_comm a b =
    ground (arith, same_comm b.subject a.subject, same_comm b.capability a.capability)

same_rule_comm : (a b : VisibilityRule) → same_rule a b ≡ same_rule b a
same_rule_comm a b =
    ground (arith, same_comm b.subject a.subject, same_comm b.capability a.capability)

pub new_state-IsConsistent : IsConsistent new_state
unfolding new_state
new_state-IsConsistent = record {
  grants_distinct = tt;
  rules_distinct = tt;
  requests_numbered = tt;
}

pub grant_capability-IsConsistent :
    (s : State) (subject capability granted_by reason now : Text)
    → IsConsistent s
    → IsConsistent (grant_capability s subject capability granted_by reason now).0
unfolding grant_capability
grant_capability-IsConsistent s subject capability granted_by reason now v =
    elim (Bool-cases (is_micro_vm_source granted_by && same granted_by subject)) [
      | inl e ↦ rw e v
      | inr e ↦ rw e (record {
        grants_distinct =
            upsert-Distinct same_pair same_pair_comm
              (added subject capability granted_by reason now) s.grants v.grants_distinct;
        rules_distinct = v.rules_distinct;
        requests_numbered = v.requests_numbered;
      })
    ]

pub revoke_capability-IsConsistent :
    (s : State) (subject capability : Text)
    → IsConsistent s
    → IsConsistent (revoke_capability s subject capability).0
unfolding revoke_capability
revoke_capability-IsConsistent s subject capability v =
    elim (Bool-cases (any (is_pair subject capability) s.grants)) [
      | inl e ↦ rw e (record {
        grants_distinct = keep-Distinct same_pair _ s.grants v.grants_distinct;
        rules_distinct = v.rules_distinct;
        requests_numbered = v.requests_numbered;
      })
      | inr e ↦ rw e v
    ]

pub set_visibility-IsConsistent :
    (s : State) (subject capability level set_by reason now : Text)
    → IsConsistent s
    → IsConsistent (set_visibility s subject capability level set_by reason now)
unfolding set_visibility
set_visibility-IsConsistent s subject capability level set_by reason now v = record {
  grants_distinct = v.grants_distinct;
  rules_distinct =
      upsert-Distinct same_rule same_rule_comm
        (record {
          subject = subject;
          capability = capability;
          level = level;
          reason = reason;
          set_by = set_by;
          set_at = now;
        })
        s.visibility v.rules_distinct;
  requests_numbered = v.requests_numbered;
}

append-Numbered :
    (n : ℕ) (rs : List Request) (r : Request)
    → r.id ≡ request_id (n + length rs + 1)
    → Numbered n rs
    → Numbered n (rs ++ r ∷ [])
append-Numbered n [] r e v = (e ∙ ap request_id (omega arith), tt)
append-Numbered n (q ∷ rs) r e v =
    (v.0, append-Numbered (n + 1) rs r (e ∙ ap request_id (omega arith)) v.1)

pub record_request-IsConsistent :
    (s : State) (subject capability context now : Text)
    → IsConsistent s
    → IsConsistent (record_request s subject capability context now).0
unfolding record_request
record_request-IsConsistent s subject capability context now v = record {
  grants_distinct = v.grants_distinct;
  rules_distinct = v.rules_distinct;
  requests_numbered =
      append-Numbered 0 s.requests _ (ap request_id (omega arith)) v.requests_numbered;
}

abbrev pub same_id : Request → Request → Bool
same_id a b = same a.id b.id

request_id-injective : (m n : ℕ) → request_id m ≡ request_id n → m ≡ n
request_id-injective m n e = decimal-injective m n (cc)

later_ids :
    (k n : ℕ) (r : Request) (rs : List Request)
    → r.id ≡ request_id k
    → k ≤ n
    → Numbered n rs
    → any (same_id r) rs ≡ false
later_ids k n r [] e h v = refl
later_ids k n r (q ∷ rs) e h v = elim (Bool-cases (same_id r q)) [
  | inl s ↦
      absurd (omega (arith, request_id-injective k (n + 1) (sym e ∙ (eq_of_same _ _ s ∙ v.0))))
  | inr s ↦ rw s (later_ids k (n + 1) r rs e (omega arith) v.1)
]

pub requests-Distinct : (n : ℕ) (rs : List Request) → Numbered n rs → Distinct same_id rs
requests-Distinct n [] v = tt
requests-Distinct n (r ∷ rs) v =
    (later_ids (n + 1) (n + 1) r rs v.0 (omega arith) v.1, requests-Distinct (n + 1) rs v.1)
