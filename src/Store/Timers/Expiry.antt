-- ===== src/Store/Timers/Expiry.antt =====
-- cmd/store/main.go: what a reconciliation removes and keeps.
use aegis_claw.Base.{◌≡◌, refl, sym, ap, ◌∙◌, inl, inr, Bool-cases, false, List, [], ◌∷◌, arith}
use mathlib.Core.Path.{subst, subst₂}
use aegis_claw.Base.Text.{Text, text, same}
use aegis_claw.Base.Json.{Json, str, obj, Fields, end, field, get, put}
use aegis_claw.Channel.Backfill.{get-put, get-put-other}
use aegis_claw.Store.World.{Request, World}
use aegis_claw.Store.Proposals.{file_map}
use aegis_claw.Store.Timers.{
  text_lt, expires_before, is_expired, expired_ids, unexpired, reconcile, saved_unexpired,
  on_reconcile, reconcile_expired_autonomy, reconcile_expired_background_work,
  reconcile_expired_timers,
}

-- A record with an "expires" before `now` is not in the file afterwards, and one with an "expires" that
-- is not before `now` is left as it is.
abbrev pub IsCleared : Text → Json → Json → Type 0
IsCleared now before after =
    ((id : Text) (m : Fields) (e : Text)
      → get (file_map after) id ≡ obj m
      → get m (text "expires") ≡ str e
      → text_lt e now ≡ false)
    × ((id : Text) (m : Fields) (e : Text)
        → get (file_map before) id ≡ obj m
        → get m (text "expires") ≡ str e
        → text_lt e now ≡ false
        → get (file_map after) id ≡ obj m)

-- The test of the loops on a record with an "expires".
is_expired-expires :
    (now : Text) (v : Json) (m : Fields) (e : Text)
    → v ≡ obj m
    → get m (text "expires") ≡ str e
    → is_expired now v ≡ text_lt e now
unfolding is_expired
is_expired-expires now v m e q h = ap (is_expired now) q ∙ ap (expires_before now) h

none_left :
    (now : Text) (file : Fields) (id : Text) (m : Fields) (e : Text)
    → get (unexpired now file) id ≡ obj m
    → get m (text "expires") ≡ str e
    → text_lt e now ≡ false
unfolding unexpired get
none_left now end id m e h x = cc
none_left now (field k v file) id m e h x = elim (Bool-cases (is_expired now v)) [
  | inl gone ↦ none_left now file id m e (ground (arith, h, gone)) x
  | inr live ↦ elim (Bool-cases (same k id)) [
    | inl here ↦ sym (is_expired-expires now v m e (ground (arith, h, live, here)) x) ∙ live
    | inr there ↦ none_left now file id m e (ground (arith, h, live, there)) x
  ]
]

live_kept :
    (now : Text) (file : Fields) (id : Text) (m : Fields) (e : Text)
    → get file id ≡ obj m
    → get m (text "expires") ≡ str e
    → text_lt e now ≡ false
    → get (unexpired now file) id ≡ obj m
unfolding unexpired get
live_kept now end id m e h x l = cc
live_kept now (field k v file) id m e h x l = elim (Bool-cases (same k id)) [
  | inl here ↦
      let q : v ≡ obj m = ground (arith, h, here) in
      let live : is_expired now v ≡ false = is_expired-expires now v m e q x ∙ l in
      ground (arith, live, here, q)
  | inr there ↦
      let kept = live_kept now file id m e (ground (arith, h, there)) x l in
      ground (arith, there, kept)
]

nothing_expired :
    (now : Text) (file : Fields) → expired_ids now file ≡ [] → unexpired now file ≡ file
unfolding expired_ids unexpired
nothing_expired now end h = refl
nothing_expired now (field k v file) h = ground (arith, h, nothing_expired now file)

abbrev pub file_at : Text → World → Json
file_at name w = get w.files name

unexpired-IsCleared :
    (now : Text) (before after : Json)
    → file_map after ≡ unexpired now (file_map before)
    → IsCleared now before after
unexpired-IsCleared now before after q = (
  λ id m e h x. none_left now (file_map before) id m e (ap (λ f. get f id) (sym q) ∙ h) x,
  λ id m e h x l. ap (λ f. get f id) q ∙ live_kept now (file_map before) id m e h x l,
)

-- All writes of the Store succeed.
abbrev pub IsWriting : World → Type 0
IsWriting w = (name : Text) (old v : Json) → w.write_file name old v ≡ v

saved-IsCleared :
    (name now : Text) (w : World) (ids : List Text)
    → IsWriting w
    → expired_ids now (file_map (file_at name w)) ≡ ids
    → let w' = saved_unexpired name now (file_map (file_at name w)) ids w in
      IsCleared now (file_at name w) (file_at name w')
saved-IsCleared name now w [] g h =
    unexpired-IsCleared now (file_at name w) (file_at name w)
      (sym (nothing_expired now (file_map (file_at name w)) h))
saved-IsCleared name now w (id ∷ ids) g h =
    let v = obj (unexpired now (file_map (file_at name w))) in
    let written = w.write_file name (file_at name w) v in
    unexpired-IsCleared now (file_at name w) (get (put w.files name written) name)
      (ap file_map (get-put w.files name written ∙ g name (file_at name w) v))

saved-other :
    (name other now : Text) (w : World) (m : Fields) (ids : List Text)
    → same name other ≡ false
    → file_at other (saved_unexpired name now m ids w) ≡ file_at other w
saved-other name other now w m [] h = refl
saved-other name other now w m (id ∷ ids) h = get-put-other w.files name other _ h

saved-IsWriting :
    (name now : Text) (w : World) (m : Fields) (ids : List Text)
    → IsWriting w
    → IsWriting (saved_unexpired name now m ids w)
saved-IsWriting name now w m [] g = g
saved-IsWriting name now w m (id ∷ ids) g = g

-- Where the writes succeed, whose errors the code ignores, after reconcile.expired_grants no record of
-- the grants, background work and timers has an "expires" that comes before the time of the call, in the
-- order of strings, and the records with a later "expires" are left as they were.
pub on_reconcile_clears :
    (r : Request) (w : World)
    → IsWriting w
    → let w' = (on_reconcile r w).0 in
      IsCleared r.env.now (file_at (text "grants.json") w) (file_at (text "grants.json") w')
      × IsCleared r.env.now
          (file_at (text "background.json") w)
          (file_at (text "background.json") w')
      × IsCleared r.env.now (file_at (text "timers.json") w) (file_at (text "timers.json") w')
unfolding on_reconcile reconcile_expired_autonomy reconcile_expired_background_work
    reconcile_expired_timers same
on_reconcile_clears r w g =
    let now = r.env.now in
    let w1 = (reconcile (text "grants.json") now w).0 in
    let w2 = (reconcile (text "background.json") now w1).0 in
    let g1 = saved-IsWriting (text "grants.json") now w _ _ g in
    let g2 = saved-IsWriting (text "background.json") now w1 _ _ g1 in
    let bg1 = saved-other (text "grants.json") (text "background.json") now w _ _ refl in
    let tm1 = saved-other (text "grants.json") (text "timers.json") now w _ _ refl in
    let tm2 = saved-other (text "background.json") (text "timers.json") now w1 _ _ refl in
    (
      subst (IsCleared now (file_at (text "grants.json") w))
          (sym (
            saved-other (text "timers.json") (text "grants.json") now w2 _ _ refl
            ∙ saved-other (text "background.json") (text "grants.json") now w1 _ _ refl))
          (saved-IsCleared (text "grants.json") now w _ g refl),
      subst₂ (IsCleared now) bg1
          (sym (saved-other (text "timers.json") (text "background.json") now w2 _ _ refl))
          (saved-IsCleared (text "background.json") now w1 _ g1 refl),
      subst (λ b. IsCleared now b (file_at (text "timers.json") (on_reconcile r w).0)) (tm2 ∙ tm1)
          (saved-IsCleared (text "timers.json") now w2 _ g2 refl),
    )
