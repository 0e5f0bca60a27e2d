-- ===== src/Store/Audit/Replay.antt =====
-- What an accepted trail tells: how the grants, the attempts and the versions of its events go
-- together. These are facts of the auditor alone, for any list of events.
use watchkeeper.Prelude.{
  ℕ, zero, suc, ◌+◌, ◌≤◌, ◌≡◌, refl, arith, Bool, true, false, List, [], ◌∷◌, length,
}
use watchkeeper.Domain.Types.{Event}
use watchkeeper.Store.Audit.{
  Progress, Trail, unopened, follows, broken, observe, advance, replay, is_grant, grants,
}

-- One for an attempt whose permission to send is not out yet.
abbrev pub unsent : Bool → ℕ
unsent true = 0
unsent false = 1

unfoldable pub count_from : ℕ → ℕ → List ℕ
count_from start zero = []
count_from start (suc n) = start ∷ count_from (suc start) n

unfoldable pub versions : List Event → List ℕ
versions [] = []
versions (e ∷ events) = e.operation_version ∷ versions events

pub replay-broken : (events : List Event) (q : Progress) → replay broken events ≡ follows q → ⊥
unfolding replay observe
replay-broken [] q h = cc
replay-broken (e ∷ events) q h = replay-broken events q h

pub observe-opens : (t : Trail) (e : Event) → observe t e ≡ unopened → ⊥
unfolding observe advance
observe-opens unopened e h = ground arith
observe-opens (follows o) e h = ground arith
observe-opens broken e h = cc

-- The attempts that a trail has opened, the permissions it still has, and its last version.
abbrev made : Trail → ℕ
made unopened = 0
made (follows p) = p.attempts
made broken = 0

abbrev free : Trail → ℕ
free unopened = 0
free (follows p) = unsent p.may_have_sent
free broken = 0

abbrev last_version : Trail → ℕ
last_version unopened = 0
last_version (follows p) = p.version
last_version broken = 0

-- One event: a grant uses up the attempt's one permission, and only a retry makes another.
observe-grants :
    (t : Trail) (p : Progress) (e : Event)
    → observe t e ≡ follows p
    → grants (e ∷ []) + unsent p.may_have_sent + made t ≤ p.attempts + free t
unfolding observe advance grants is_grant
observe-grants unopened p e h = ground arith
observe-grants (follows o) p e h = ground arith
observe-grants broken p e h = cc

observe-versions :
    (t : Trail) (p : Progress) (e : Event)
    → observe t e ≡ follows p
    → (e.operation_version ≡ suc (last_version t)) × (p.version ≡ suc (last_version t))
unfolding observe advance
observe-versions unopened p e h = ground arith
observe-versions (follows o) p e h = ground arith
observe-versions broken p e h = cc

step-grants :
    (next t : Trail) (q : Progress) (e : Event) (events : List Event)
    → observe t e ≡ next
    → replay next events ≡ follows q
    → grants events + unsent q.may_have_sent + made next ≤ q.attempts + free next
    → grants (e ∷ events) + unsent q.may_have_sent + made t ≤ q.attempts + free t
unfolding grants
step-grants unopened t q e events s h later = elim (observe-opens t e s) [ ]
step-grants (follows p) t q e events s h later = ground (arith, observe-grants t p e s)
step-grants broken t q e events s h later = elim (replay-broken events q h) [ ]

-- The events after any point of a trail that ends well.
pub replay-grants :
    (t : Trail) (q : Progress) (events : List Event)
    → replay t events ≡ follows q
    → grants events + unsent q.may_have_sent + made t ≤ q.attempts + free t
unfolding replay grants
replay-grants unopened q [] h = cc
replay-grants (follows p) q [] h = ground arith
replay-grants broken q [] h = cc
replay-grants t q (e ∷ events) h =
    step-grants (observe t e) t q e events refl h (replay-grants (observe t e) q events h)

-- The versions that a trail expects next, and where they end.
unfoldable pub Gapless : Trail → Progress → List Event → Type 0
Gapless t q events =
    (versions events ≡ count_from (suc (last_version t)) (length events))
    × (last_version t + length events ≡ q.version)

step-versions :
    (next t : Trail) (q : Progress) (e : Event) (events : List Event)
    → observe t e ≡ next
    → replay next events ≡ follows q
    → Gapless next q events
    → Gapless t q (e ∷ events)
unfolding Gapless versions count_from
step-versions unopened t q e events s h later = elim (observe-opens t e s) [ ]
step-versions (follows p) t q e events s h later = ground (arith, observe-versions t p e s)
step-versions broken t q e events s h later = elim (replay-broken events q h) [ ]

pub replay-versions :
    (t : Trail) (q : Progress) (events : List Event)
    → replay t events ≡ follows q
    → Gapless t q events
unfolding replay Gapless versions count_from
replay-versions unopened q [] h = cc
replay-versions (follows p) q [] h = ground arith
replay-versions broken q [] h = cc
replay-versions t q (e ∷ events) h =
    step-versions (observe t e) t q e events refl h (replay-versions (observe t e) q events h)
