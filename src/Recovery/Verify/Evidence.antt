-- ===== src/Recovery/Verify/Evidence.antt =====
-- What an observation that the effect is completed rests on.
use watchkeeper.Prelude.{
  String, ◌≢◌, ◌⊎◌, ◌&&◌, ◌||◌, inl, inr, eq_iff, Bool-cases, sym, ◌∙◌, subst, ap, ℕ, if◌then◌else◌,
  Bool, arith, Bool, Option, true, false, refl, none, some, ◌≡◌, str_eq,
}
use watchkeeper.Domain.Types.{
  unknown, VerificationMechanism, Observation, Operation, ok, err, completed, Result, library_error,
}
use watchkeeper.Store.Ensures.{ok-injective}
use watchkeeper.Recovery.Verify.{
  status_of, inspection, Capability, asked, read_capability, not_built, not_answered, replied,
  matching, judged, fields_match, question, Latest, Question, replied, Expected, unreached,
  observed, StatusBody, judge_status, read_status, Reply, Lookup, verify,
}

-- The fields of an effect, compared without the code's test.
pub record Agrees (v : Lookup) (op : Operation) (s : StatusBody) (e : Expected) (l : Latest)
    : Type 0 where
  pub recipient : l.recipient ≡ e.recipient
  pub template : l.template ≡ e.template
  pub logical_message_key : l.logical_message_key ≡ e.logical_message_key
  pub has_recipient : e.recipient ≢ ""
  pub has_template : e.template ≢ ""
  pub has_key : e.logical_message_key ≢ ""
  pub has_receipt : l.receipt_id ≢ ""
  pub owner :
      (op.capability_profile ≡ "indirect_unique")
      ⊎ ((s.operation_id ≡ v.id_text op.id) × (l.operation_id ≡ v.id_text op.id))

-- The question of a profile: the status of the operation, or an inspection by the expected fields.
abbrev pub Asks : Lookup → Operation → Question → Type 0
Asks v op q =
    ((op.capability_profile ≢ "indirect_unique") × (q ≡ status_of op.id))
    ⊎ ((op.capability_profile ≡ "indirect_unique")
        × ((f : String → String) × (v.effect_map op.expected_effect ≡ some f)
            × (q ≡ inspection (f "recipient") (f "template") (f "logical_message_key"))))

-- One committed effect in a reply of status 200, whose latest effect and expected effect match.
pub record Evidence (v : Lookup) (op : Operation) (o : Observation) : Type 0 where
  pub asked_for : Question
  pub body : StatusBody
  pub expected : Expected
  pub latest : Latest
  pub asks : Asks v op asked_for
  pub reply : v.ask_status asked_for ≡ replied 200 (some body)
  pub one : body.committed_count ≡ 1
  pub has_expected : v.effect_fields op.expected_effect ≡ some expected
  pub has_latest : body.latest ≡ some latest
  pub agrees : Agrees v op body expected latest
  pub authority : o.authoritative ≡ body.authoritative
  pub reference : o.external_reference ≡ latest.receipt_id

module _ (v : Lookup) (op : Operation) where
  Judged : StatusBody → Observation → Type 0
  Judged s o =
      (s.committed_count ≡ 1)
      × ((e : Expected) × (l : Latest) × (v.effect_fields op.expected_effect ≡ some e)
          × (s.latest ≡ some l)
          × (fields_match v op s e l ≡ true)
          × (o.authoritative ≡ s.authoritative)
          × (o.external_reference ≡ l.receipt_id))

  Matched : StatusBody → Observation → Option Expected → Option Latest → Type 0
  Matched s o x y =
      (e : Expected) × (l : Latest) × (x ≡ some e)
      × (y ≡ some l)
      × (fields_match v op s e l ≡ true)
      × (o.authoritative ≡ s.authoritative)
      × (o.external_reference ≡ l.receipt_id)

  chosen-Matched :
      (s : StatusBody) (e : Expected) (l : Latest) (b : Bool)
      → fields_match v op s e l ≡ b
      → (judged v op s (if b then some l else none)).outcome ≡ completed
      → Matched s (judged v op s (if b then some l else none)) (some e) (some l)
  unfolding observed Matched
  chosen-Matched s e l true m h = (e, l, refl, refl, m, refl, refl)
  chosen-Matched s e l false m h = cc

  judged-completed :
      (s : StatusBody) (x : Option Expected) (y : Option Latest)
      → (judged v op s (matching v op s x y)).outcome ≡ completed
      → Matched s (judged v op s (matching v op s x y)) x y
  unfolding observed
  judged-completed s none y h = cc
  judged-completed s (some e) none h = cc
  judged-completed s (some e) (some l) h = chosen-Matched s e l (fields_match v op s e l) refl h

  one_judged :
      (s : StatusBody)
      → (judge_status v op s).outcome ≡ completed
      → (s.committed_count ≡ 1)
        × (judge_status v op s
            ≡ judged v op s (matching v op s (v.effect_fields op.expected_effect) s.latest))
  unfolding judge_status observed
  one_judged s h = ground arith

  judge_status-completed :
      (s : StatusBody) → (judge_status v op s).outcome ≡ completed → Judged s (judge_status v op s)
  unfolding Judged Matched
  judge_status-completed s h =
      let (one, same) = one_judged s h in
      (
        one,
        subst (λ o. Matched s o (v.effect_fields op.expected_effect) s.latest) (sym same)
            (judged-completed s (v.effect_fields op.expected_effect) s.latest
              (ap (λ o. o.outcome) (sym same) ∙ h)),
      )

  Read : Reply StatusBody → Observation → Type 0
  Read r o = (s : StatusBody) × (r ≡ replied 200 (some s)) × Judged s o

  not_judged :
      (code : ℕ) (o : Observation)
      → read_status v op (replied code none) ≡ ok o
      → o.outcome ≡ completed
      → ⊥
  unfolding read_status unreached observed
  not_judged code o eq h = ground arith

  is_judged :
      (code : ℕ) (s : StatusBody) (o : Observation)
      → read_status v op (replied code (some s)) ≡ ok o
      → o.outcome ≡ completed
      → (code ≡ 200) × (judge_status v op s ≡ o)
  unfolding read_status unreached observed
  is_judged code s o eq h = ground arith

  read_status-completed :
      (r : Reply StatusBody) (o : Observation)
      → read_status v op r ≡ ok o
      → o.outcome ≡ completed
      → Read r o
  unfolding read_status unreached observed Read
  read_status-completed (not_built e) o eq h = cc
  read_status-completed not_answered o eq h = ground arith
  read_status-completed (replied code none) o eq h = elim (not_judged code o eq h) [ ]
  read_status-completed (replied code (some s)) o eq h =
      let (is_200, same) = is_judged code s o eq h in
      (
        s,
        ap (λ n. replied n (some s)) is_200,
        subst (Judged s) same (judge_status-completed s (ap (λ x. x.outcome) same ∙ h)),
      )

  not_empty : (t : String) → str_eq t "" ≡ false → t ≢ ""
  not_empty t h same = cc (h, (eq_iff t "").1 same)

  both : (a b : Bool) → (a && b) ≡ true → (a ≡ true) × (b ≡ true)
  both true true h = (refl, refl)
  both true false h = cc
  both false b h = cc

  owner_of :
      (s : StatusBody) (l : Latest)
      → (str_eq op.capability_profile "indirect_unique"
          || (str_eq s.operation_id (v.id_text op.id) && str_eq l.operation_id (v.id_text op.id)))
        ≡ true
      → (op.capability_profile ≡ "indirect_unique")
        ⊎ ((s.operation_id ≡ v.id_text op.id) × (l.operation_id ≡ v.id_text op.id))
  owner_of s l h = elim (Bool-cases (str_eq op.capability_profile "indirect_unique")) [
    | inl indirect ↦ inl ((eq_iff _ _).0 indirect)
    | inr direct ↦
        let (a, b) = both _ _ (rw direct at h) in inr ((eq_iff _ _).0 a, (eq_iff _ _).0 b)
  ]

  fields_match-Agrees :
      (s : StatusBody) (e : Expected) (l : Latest)
      → fields_match v op s e l ≡ true
      → Agrees v op s e l
  unfolding fields_match
  fields_match-Agrees s e l h = record {
    recipient = (eq_iff _ _).0 (ground (arith, h));
    template = (eq_iff _ _).0 (ground (arith, h));
    logical_message_key = (eq_iff _ _).0 (ground (arith, h));
    has_recipient = not_empty _ (ground (arith, h));
    has_template = not_empty _ (ground (arith, h));
    has_key = not_empty _ (ground (arith, h));
    has_receipt = not_empty _ (ground (arith, h));
    owner = owner_of s l (ground (arith, h));
  }

  mapped-Asks :
      (o : Option (String → String)) (q : Question)
      → elim o as (λ x. Result Question) [
        | none ↦ err (library_error "parse expected effect")
        | some f ↦ ok (inspection (f "recipient") (f "template") (f "logical_message_key"))
      ]
        ≡ ok q
      → (f : String → String) × (o ≡ some f)
        × (q ≡ inspection (f "recipient") (f "template") (f "logical_message_key"))
  mapped-Asks none q h = cc
  mapped-Asks (some f) q h = (f, refl, sym (ok-injective h))

  question-Asks : (q : Question) → question v op ≡ ok q → Asks v op q
  unfolding question
  question-Asks q h = elim (Bool-cases (str_eq op.capability_profile "indirect_unique")) [
    | inl indirect ↦ inr (
      (eq_iff _ _).0 indirect,
      mapped-Asks (v.effect_map op.expected_effect) q (rw indirect at h),
    )
    | inr direct ↦ inl (
      λ same. cc (direct, (eq_iff op.capability_profile "indirect_unique").1 same),
      sym (ok-injective (rw direct at h)),
    )
  ]

  asked-completed :
      (q : Result Question) (o : Observation)
      → question v op ≡ q
      → asked v op q ≡ ok o
      → o.outcome ≡ completed
      → Evidence v op o
  unfolding Read Judged
  asked-completed (err e) o from eq h = cc
  asked-completed (ok q) o from eq h =
      let (s, reply, judgement) = read_status-completed (v.ask_status q) o eq h in
      let (one, facts) = judgement in
      let (e, l, has_e, has_l, agrees, authority, reference) = facts in
      record {
        asked_for = q;
        body = s;
        expected = e;
        latest = l;
        asks = question-Asks q from;
        reply = reply;
        one = one;
        has_expected = has_e;
        has_latest = has_l;
        agrees = fields_match-Agrees s e l agrees;
        authority = authority;
        reference = reference;
      }

  capability-completed :
      (r : Reply Capability) (o : Observation)
      → read_capability r ≡ ok o
      → o.outcome ≡ completed
      → ⊥
  unfolding read_capability unreached observed
  capability-completed (not_built e) o eq h = cc
  capability-completed not_answered o eq h = ground arith
  capability-completed (replied code none) o eq h = ground arith
  capability-completed (replied code (some c)) o eq h = ground arith

  verify_by :
      (is_none is_key_only : Bool) (o : Observation)
      → (if is_none
          then ok (observed VerificationMechanism.none unknown false "" "{}")
          else if is_key_only
          then read_capability v.ask_capabilities
          else asked v op (question v op))
        ≡ ok o
      → o.outcome ≡ completed
      → Evidence v op o
  unfolding observed
  verify_by true k o eq h = elim (impossible eq h) [ ]
    where
      impossible :
          ok (observed VerificationMechanism.none unknown false "" "{}") ≡ ok o
          → o.outcome ≡ completed
          → ⊥
      impossible eq h = ground arith
  verify_by false true o eq h = elim (capability-completed v.ask_capabilities o eq h) [ ]
  verify_by false false o eq h = asked-completed (question v op) o refl eq h

  -- An observation of a completed effect rests on evidence: a reply of status 200 to the question of
  -- the operation's profile, with one committed effect, whose recipient, template and key are those
  -- that the operation expects, none of them empty, and, unless the profile is `indirect_unique`,
  -- whose operation is this one; the observation's authority and reference are those of the reply.
  pub verify-completed :
      (o : Observation) → verify v op ≡ ok o → o.outcome ≡ completed → Evidence v op o
  unfolding verify
  verify-completed o eq h =
      verify_by (str_eq op.capability_profile "none")
        (str_eq op.capability_profile "idempotency_only") o eq h
