-- ===== src/Recovery/Coordinator/Counts.antt =====
-- What RunOnce counts.
use watchkeeper.Prelude.{
  subst, ◌∙◌, List, Option, inl, inr, ◌≢◌, suc, String, ◌⊎◌, ◌+◌, ◌≡◌, ℕ, refl, none, some, ◌≤◌,
  length, [], ◌∷◌, arith,
}
use watchkeeper.Recovery.Coordinator.{
  result_of, seen, before_result, reported, Observation, run_claims, after_result, RecoveryClaim,
  run_once, stopped, err, Error, submitted, ok, Result, RecoveryResult, Uuid, Operation, Processed,
  Around, process,
}

module _ {S : Type 0} (v : Around S) where
  -- A counter of the submissions that the outside took, which only a submission that answers moves.
  pub record Counted (taken : S → ℕ) : Type 0 where
    pub claim : (s : S) → taken (v.claim_recovery s).1 ≡ taken s
    pub verify : (op : Operation) (s : S) → taken (v.verify op s).1 ≡ taken s
    pub hook : (name : String) (op : Operation) (s : S) → taken (v.hook name op s).1 ≡ taken s
    pub accepted :
        (id : Uuid) (r : RecoveryResult) (s t : S) (op : Operation)
        → v.submit id r s ≡ (ok op, t)
        → taken t ≡ suc (taken s)
    pub refused :
        (id : Uuid) (r : RecoveryResult) (s t : S) (e : Error)
        → v.submit id r s ≡ (err e, t)
        → taken t ≡ taken s

-- A run that starts with `n` counted and `k` taken ends with as many more of each, or one more taken
-- than counted where the hook after a submission stops it; and counts at most the claims.
Agrees : ℕ → ℕ → ℕ → Processed → ℕ → Type 0
Agrees n k room p taken =
    (p.count ≤ n + room)
    × ((p.count + k ≡ n + taken) ⊎ ((suc (p.count + k) ≡ n + taken) × (p.error ≢ none)))

module _ {S : Type 0} (v : Around S) (taken : S → ℕ) (c : Counted v taken) where
  -- The rest of a loop that agrees, from any point.
  Rest : ℕ → (ℕ → S → Processed × S) → Type 0
  Rest room next = (m : ℕ) (t : S) → Agrees m (taken t) room (next m t).0 (taken (next m t).1)

  stopped-Agrees :
      (n k room : ℕ) (e : Error) (t : S) → taken t ≡ k → Agrees n k room (stopped n e) (taken t)
  unfolding Agrees
  stopped-Agrees n k room e t h = (omega arith, inl (omega (arith, h)))

  after_result-Agrees :
      (n k room : ℕ) (next : ℕ → S → Processed × S) (r : Option Error × S)
      → taken r.1 ≡ suc k
      → Rest room next
      → Agrees n k (suc room) (after_result v n next r).0 (taken (after_result v n next r).1)
  unfolding Agrees Rest
  after_result-Agrees n k room next (some e, t) h f =
      (omega arith, inr (omega (arith, h), λ is_none. cc (is_none)))
  after_result-Agrees n k room next (none, t) h f = ground (arith, f (suc n) t)

  submitted-Agrees :
      (n room : ℕ) (next : ℕ → S → Processed × S) (s : S) (id : Uuid) (res : RecoveryResult)
      (r : Result Operation × S)
      → v.submit id res s ≡ r
      → Rest room next
      → Agrees n (taken s) (suc room) (submitted v n next r).0 (taken (submitted v n next r).1)
  unfolding Agrees Rest
  submitted-Agrees n room next s id res (err e, t) eq f =
      ground (arith, f n t, c.refused id res s t e eq)
  submitted-Agrees n room next s id res (ok op, t) eq f =
      after_result-Agrees n (taken s) room next (v.hook "coordinator_after_result" op t)
        (c.hook "coordinator_after_result" op t ∙ c.accepted id res s t op eq) f

  before_result-Agrees :
      (n k room : ℕ) (next : ℕ → S → Processed × S) (claim : RecoveryClaim) (o : Observation)
      (r : Option Error × S)
      → taken r.1 ≡ k
      → Rest room next
      → Agrees n k
          (suc room)
          (before_result v n next claim o r).0
          (taken (before_result v n next claim o r).1)
  before_result-Agrees n k room next claim o (some e, t) h f = stopped-Agrees n k (suc room) e t h
  before_result-Agrees n k room next claim o (none, t) h f =
      subst
        (λ k.
          Agrees n k (suc room) (before_result v n next claim o (none, t)).0
            (taken (before_result v n next claim o (none, t)).1))
        h (submitted-Agrees n room next t claim.operation.id (result_of claim o) _ refl f)

  reported-Agrees :
      (n k room : ℕ) (next : ℕ → S → Processed × S) (claim : RecoveryClaim) (r : Option Error × S)
      → taken r.1 ≡ k
      → Rest room next
      → Agrees n k (suc room) (reported v n next claim r).0 (taken (reported v n next claim r).1)
  reported-Agrees n k room next claim (some e, t) h f = stopped-Agrees n k (suc room) e t h
  reported-Agrees n k room next claim (none, t) h f =
      before_result-Agrees n k room next claim (seen (v.verify claim.operation t).0)
        (v.hook "coordinator_before_result" claim.operation (v.verify claim.operation t).1)
        (c.hook "coordinator_before_result" claim.operation (v.verify claim.operation t).1
          ∙ c.verify claim.operation t
          ∙ h)
        f

  process-Agrees :
      (claims : List RecoveryClaim) → Rest (length claims) (λ n s. process v claims n s)
  unfolding process Rest Agrees
  process-Agrees [] n s = (omega arith, inl refl)
  process-Agrees (x ∷ claims) n s =
      reported-Agrees n (taken s) (length claims) (λ m t. process v claims m t) x
        (v.hook "recovery_claimed" x.operation s) (c.hook "recovery_claimed" x.operation s)
        (process-Agrees claims)

  -- RunOnce counts the results that were taken: as many as the submissions that answered, or, where
  -- it ends with an error, perhaps one fewer (the hook after that submission failed).
  pub run_once-count :
      (s : S)
      → ((run_once v s).0.count + taken s ≡ taken (run_once v s).1)
        ⊎ ((suc ((run_once v s).0.count + taken s) ≡ taken (run_once v s).1)
            × ((run_once v s).0.error ≢ none))
  unfolding run_once Rest Agrees
  run_once-count s = by_claims (v.claim_recovery s) (c.claim s)
    where
      by_claims :
          (r : Result (List RecoveryClaim) × S)
          → taken r.1 ≡ taken s
          → ((run_claims v r).0.count + taken s ≡ taken (run_claims v r).1)
            ⊎ ((suc ((run_claims v r).0.count + taken s) ≡ taken (run_claims v r).1)
                × ((run_claims v r).0.error ≢ none))
      by_claims (err e, t) h = inl (omega (arith, h))
      by_claims (ok claims, t) h = ground (arith, process-Agrees claims 0 t, h)
