-- ===== src/Store/Audit/Attempts.antt =====
-- The attempts of an operation as its events tell them: where each begins, and what is granted in it.
-- These are facts of the auditor alone, for any list of events.
use watchkeeper.Prelude.{
  ℕ, suc, ◌+◌, ◌≤◌, ◌<◌, ◌==◌, ◌&&◌, ◌||◌, ◌≡◌, refl, arith, ap, Bool, true, false, List, [], ◌∷◌,
  if◌then◌else◌,
}
use watchkeeper.Domain.Types.{Event, intent_prepared, retry_started}
use watchkeeper.Store.Audit.{
  Progress, Trail, unopened, follows, broken, observe, advance, replay, is_grant,
}
use watchkeeper.Store.Audit.Replay.{replay-broken, observe-opens}

-- An attempt begins with the intent or with a retry.
unfoldable pub is_start : Event → Bool
is_start e = elim e.event_type [ intent_prepared ↦ true | retry_started ↦ true | _ ↦ false ]

unfoldable pub starts : List Event → ℕ
starts [] = 0
starts (e ∷ events) = let rest = starts events in if is_start e then suc rest else rest

-- The grants in the attempt `n`, where `now` attempts have begun before the events.
unfoldable pub grants_in : ℕ → ℕ → List Event → ℕ
grants_in now n [] = 0
grants_in now n (e ∷ events) =
    let later = grants_in (suc now) n events in
    let rest = grants_in now n events in
    if is_start e then later else if is_grant e && now == n then suc rest else rest

abbrev made : Trail → ℕ
made unopened = 0
made (follows p) = p.attempts
made broken = 0

abbrev has_sent : Trail → Bool
has_sent unopened = false
has_sent (follows p) = p.may_have_sent
has_sent broken = false

abbrev pub one_if : Bool → ℕ
one_if true = 1
one_if false = 0

-- One event.
observe-attempt :
    (t : Trail) (p : Progress) (e : Event)
    → observe t e ≡ follows p
    → p.attempts ≡ (if is_start e then suc (made t) else made t)
unfolding observe advance is_start
observe-attempt unopened p e h = ground arith
observe-attempt (follows o) p e h = ground arith
observe-attempt broken p e h = cc

observe-sent :
    (t : Trail) (p : Progress) (e : Event)
    → observe t e ≡ follows p
    → p.may_have_sent ≡ (if is_start e then false else has_sent t || is_grant e)
unfolding observe advance is_start is_grant
observe-sent unopened p e h = ground arith
observe-sent (follows o) p e h = ground arith
observe-sent broken p e h = cc

observe-granted :
    (t : Trail) (p : Progress) (e : Event)
    → observe t e ≡ follows p
    → (is_grant e && has_sent t) ≡ false
unfolding observe advance is_grant
observe-granted unopened p e h = ground arith
observe-granted (follows o) p e h = ground arith
observe-granted broken p e h = cc

-- No event grants in an attempt that is over.
grants_in-over : (now n : ℕ) (events : List Event) → n < now → grants_in now n events ≡ 0
unfolding grants_in
grants_in-over now n [] h = refl
grants_in-over now n (e ∷ events) h =
    ground
      (arith, grants_in-over (suc now) n events (omega (arith, h)), grants_in-over now n events h)

-- The bound, and how it comes back over one event.
abbrev Once : Trail → ℕ → List Event → Type 0
Once t n events = grants_in (made t) n events + one_if (has_sent t && made t == n) ≤ 1

over_one :
    (start grant before after : Bool) (m now n next rest left : ℕ)
    → now ≡ (if start then suc m else m)
    → after ≡ (if start then false else before || grant)
    → (grant && before) ≡ false
    → left ≡ (if start then next else rest)
    → (m == n ≡ true → next ≡ 0)
    → left + one_if (after && now == n) ≤ 1
    → (if start then next else if grant && m == n then suc rest else rest)
        + one_if (before && m == n)
      ≤ 1
over_one true grant before after m now n next rest left hm hs hg hl hz h = ground (arith, hz)
over_one false true true after m now n next rest left hm hs hg hl hz h = cc
over_one false true false after m now n next rest left hm hs hg hl hz h = ground arith
over_one false false true after m now n next rest left hm hs hg hl hz h = ground arith
over_one false false false after m now n next rest left hm hs hg hl hz h = ground arith

left_by :
    (start : Bool) (m now n : ℕ) (events : List Event)
    → now ≡ (if start then suc m else m)
    → grants_in now n events ≡ (if start then grants_in (suc m) n events else grants_in m n events)
left_by true m now n events h = ap (λ k. grants_in k n events) h
left_by false m now n events h = ap (λ k. grants_in k n events) h

step-Once :
    (t : Trail) (p : Progress) (n : ℕ) (e : Event) (events : List Event)
    → observe t e ≡ follows p
    → Once (follows p) n events
    → Once t n (e ∷ events)
unfolding grants_in
step-Once t p n e events s later =
    let begun = observe-attempt t p e s in
    over_one (is_start e) (is_grant e) (has_sent t) p.may_have_sent (made t) p.attempts n _ _ _
      begun (observe-sent t p e s) (observe-granted t p e s)
      (left_by (is_start e) (made t) p.attempts n events begun)
      (λ same. grants_in-over (suc (made t)) n events (ground (arith, same))) later

next-Once :
    (next t : Trail) (q : Progress) (n : ℕ) (e : Event) (events : List Event)
    → observe t e ≡ next
    → replay next events ≡ follows q
    → Once next n events
    → Once t n (e ∷ events)
next-Once unopened t q n e events s h later = elim (observe-opens t e s) [ ]
next-Once (follows p) t q n e events s h later = step-Once t p n e events s later
next-Once broken t q n e events s h later = elim (replay-broken events q h) [ ]

-- In each attempt of a trail that ends well there is at most one grant.
pub replay-Once :
    (t : Trail) (q : Progress) (n : ℕ) (events : List Event)
    → replay t events ≡ follows q
    → Once t n events
unfolding replay grants_in
replay-Once unopened q n [] h = omega arith
replay-Once (follows p) q n [] h = ground arith
replay-Once broken q n [] h = omega arith
replay-Once t q n (e ∷ events) h =
    next-Once (observe t e) t q n e events refl h (replay-Once (observe t e) q n events h)

step-starts :
    (next t : Trail) (q : Progress) (e : Event) (events : List Event)
    → observe t e ≡ next
    → replay next events ≡ follows q
    → starts events + made next ≡ q.attempts
    → starts (e ∷ events) + made t ≡ q.attempts
unfolding starts
step-starts unopened t q e events s h later = elim (observe-opens t e s) [ ]
step-starts (follows p) t q e events s h later = ground (arith, observe-attempt t p e s)
step-starts broken t q e events s h later = elim (replay-broken events q h) [ ]

-- The attempts of a trail that ends well are those that its events begin.
pub replay-starts :
    (t : Trail) (q : Progress) (events : List Event)
    → replay t events ≡ follows q
    → starts events + made t ≡ q.attempts
unfolding replay starts
replay-starts unopened q [] h = cc
replay-starts (follows p) q [] h = ground arith
replay-starts broken q [] h = cc
replay-starts t q (e ∷ events) h =
    step-starts (observe t e) t q e events refl h (replay-starts (observe t e) q events h)

same_over :
    (start grant before after : Bool) (m now n next rest left k : ℕ)
    → now ≡ (if start then suc m else m)
    → after ≡ (if start then false else before || grant)
    → (grant && before) ≡ false
    → left ≡ (if start then next else rest)
    → now ≤ n
    → left + one_if (after && now == n) ≡ k
    → (if start then next else if grant && m == n then suc rest else rest)
        + one_if (before && m == n)
      ≡ k
same_over true grant before after m now n next rest left k hm hs hg hl hn h = ground arith
same_over false true true after m now n next rest left k hm hs hg hl hn h = cc
same_over false true false after m now n next rest left k hm hs hg hl hn h = ground arith
same_over false false true after m now n next rest left k hm hs hg hl hn h = ground arith
same_over false false false after m now n next rest left k hm hs hg hl hn h = ground arith

abbrev Present : Trail → Progress → List Event → Type 0
Present t q events =
    grants_in (made t) q.attempts events + one_if (has_sent t && made t == q.attempts)
    ≡ one_if q.may_have_sent

step-Present :
    (next t : Trail) (q : Progress) (e : Event) (events : List Event)
    → observe t e ≡ next
    → replay next events ≡ follows q
    → Present next q events
    → Present t q (e ∷ events)
unfolding grants_in
step-Present unopened t q e events s h later = elim (observe-opens t e s) [ ]
step-Present (follows p) t q e events s h later =
    let begun = observe-attempt t p e s in
    same_over (is_start e) (is_grant e) (has_sent t) p.may_have_sent (made t) p.attempts q.attempts
      _ _ _ _ begun (observe-sent t p e s) (observe-granted t p e s)
      (left_by (is_start e) (made t) p.attempts q.attempts events begun)
      (omega (arith, replay-starts (follows p) q events h)) later
step-Present broken t q e events s h later = elim (replay-broken events q h) [ ]

-- The present attempt of a trail that ends well has one grant, or none, as its last progress says.
pub replay-Present :
    (t : Trail) (q : Progress) (events : List Event)
    → replay t events ≡ follows q
    → Present t q events
unfolding replay grants_in
replay-Present unopened q [] h = cc
replay-Present (follows p) q [] h = ground arith
replay-Present broken q [] h = cc
replay-Present t q (e ∷ events) h =
    step-Present (observe t e) t q e events refl h (replay-Present (observe t e) q events h)
