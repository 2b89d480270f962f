-- ===== src/Scheduler/Dispatch/Attempts.antt =====
-- The attempts of one firing: at most three, and the last one is the first that succeeds.
use mathlib.Core.List.{append_assoc, append-nil}
use constructor.Prelude.{
  subst, ℕ, zero, suc, ◌+◌, ◌*◌, ◌^◌, ◌≤◌, ◌≡◌, refl, sym, ◌∙◌, ap, List, [], ◌∷◌, ◌++◌, ◌⊎◌, Dict,
  All, All-map, length, inl, inr, arith, ltb, if◌then◌else◌,
}
use constructor.Outcome.{return, raise, Outcome-cases, Exception}
use constructor.Workflows.Steps.{Uuid}
use constructor.Scheduler.Dispatch.{Platform, Request, Instance, request_of, attempts}

module _ (platform : Platform) (workflow_id : Uuid) where
  -- A run of attempts: the seconds that each takes are bounded by `slowest`.
  abbrev pub Slowest : ℕ → Type 0
  Slowest slowest = (now : ℕ) → (platform now workflow_id).1 ≤ slowest

  -- The waits from an attempt on.
  abbrev pub waits : ℕ → ℕ → ℕ
  waits zero attempt = 0
  waits (suc left) attempt =
      (if ltb attempt 2 then 2 ^ (attempt + 1) else 0) + waits left (suc attempt)

  -- The instance after a failed attempt, at the next one.
  abbrev pub next_try : ℕ → Instance → Instance
  next_try attempt i = record i {
    now = i.now + (platform i.now workflow_id).1 + (if ltb attempt 2 then 2 ^ (attempt + 1) else 0);
    sent = i.sent ++ request_of platform workflow_id i ∷ [];
  }

  attempts-succeeds :
      (left attempt : ℕ) (i : Instance) {u : Unit {0}}
      → (platform i.now workflow_id).0 ≡ return u
      → attempts platform (suc left) attempt workflow_id i ≡ record i {
        now = i.now + (platform i.now workflow_id).1;
        sent = i.sent ++ request_of platform workflow_id i ∷ [];
      }
  unfolding attempts
  attempts-succeeds left attempt i ok = rw (ok, attempts) refl

  attempts-fails :
      (left attempt : ℕ) (i : Instance) {e : Exception}
      → (platform i.now workflow_id).0 ≡ raise e
      → attempts platform (suc left) attempt workflow_id i
        ≡ attempts platform left (suc attempt) workflow_id (next_try attempt i)
  unfolding attempts
  attempts-fails left attempt i bad = rw (bad, attempts) refl

  pub attempts-now :
      (slowest left attempt : ℕ) (i : Instance)
      → Slowest slowest
      → (attempts platform left attempt workflow_id i).now
        ≤ i.now + left * slowest + waits left attempt
  attempts-now slowest zero attempt i slow = unfold attempts in omega arith
  attempts-now slowest (suc left) attempt i slow =
      elim (Outcome-cases (platform i.now workflow_id).0) [
        | inl (u, ok) ↦
            let once = ap (λ j. j.now) (attempts-succeeds left attempt i ok) in
            rw once (ground (arith, slow i.now))
        | inr (e, bad) ↦
            let again = ap (λ j. j.now) (attempts-fails left attempt i bad) in
            let rest = attempts-now slowest left (suc attempt) (next_try attempt i) slow in
            rw again (omega (arith, rest, slow i.now))
      ]

  -- All attempts are used, or the run ends with the answer of a successful one.
  abbrev pub Stops : ℕ → ℕ → Instance → Type 0
  Stops left number i' =
      (number ≡ left)
      ⊎ ((now : ℕ) × (u : Unit {0}) × ((platform now workflow_id).0 ≡ return u)
          × (i'.now ≡ now + (platform now workflow_id).1))

  one_more :
      (left number : ℕ) (i' : Instance) → Stops left number i' → Stops (suc left) (suc number) i'
  one_more left number i' (inl all_used) = inl (ap suc all_used)
  one_more left number i' (inr succeeded) = inr succeeded

  -- A request for the workflow, sent under the locks in a span of time.
  abbrev pub IsDuring : Dict ℕ → ℕ → ℕ → Request → Type 0
  IsDuring locks from to r =
      (r.workflow_id ≡ workflow_id) × (r.locks ≡ locks) × (from ≤ r.sent_at) × (r.sent_at ≤ to)

  IsDuring-earlier :
      (locks : Dict ℕ) (early from to : ℕ) (r : Request)
      → early ≤ from
      → IsDuring locks from to r
      → IsDuring locks early to r
  IsDuring-earlier locks early from to r le (same, under, after, before) =
      (same, under, omega (arith, le, after), before)

  -- The requests of a run of attempts.
  pub record Requests (left : ℕ) (i i' : Instance) : Type 0 where
    pub requests : List Request
    pub sent : i'.sent ≡ i.sent ++ requests
    -- for the workflow, under the locks of the start, one after the other
    pub each : All (IsDuring i.locks i.now i'.now) requests
    pub at_most : length requests ≤ left
    pub at_least : left ≡ 0 ⊎ 1 ≤ length requests
    -- a failed attempt is followed by another, if one is left
    pub stops : Stops left (length requests) i'
    pub later : i.now ≤ i'.now
    pub same_locks : i'.locks ≡ i.locks

  pub attempts-Requests :
      (left attempt : ℕ) (i : Instance)
      → Requests left i (attempts platform left attempt workflow_id i)
  attempts-Requests zero attempt i =
      unfold attempts in
      record {
        requests = [];
        sent = sym (append-nil i.sent);
        each = tt;
        later = omega arith;
        at_most = omega arith;
        at_least = inl refl;
        stops = inl refl;
        same_locks = refl;
      }
  attempts-Requests (suc left) attempt i = elim (Outcome-cases (platform i.now workflow_id).0) [
    | inl (u, ok) ↦
        subst (Requests (suc left) i) (sym (attempts-succeeds left attempt i ok)) (record {
          requests = request_of platform workflow_id i ∷ [];
          sent = refl;
          each = ((refl, refl, omega arith, omega arith), tt);
          later = omega arith;
          at_most = omega arith;
          at_least = inr (omega arith);
          stops = inr (i.now, u, ok, refl);
          same_locks = refl;
        })
    | inr (e, bad) ↦
        let rest = attempts-Requests left (suc attempt) (next_try attempt i) in
        subst (Requests (suc left) i) (sym (attempts-fails left attempt i bad)) (record {
          requests = request_of platform workflow_id i ∷ rest.requests;
          sent =
              rest.sent
              ∙ append_assoc i.sent (request_of platform workflow_id i ∷ []) rest.requests;
          each = (
            (refl, refl, omega arith, omega (arith, rest.later)),
            All-map _ _ rest.requests
                (λ r. IsDuring-earlier i.locks i.now (next_try attempt i).now _ r (omega arith))
                rest.each,
          );
          later = omega (arith, rest.later);
          at_most = omega (arith, rest.at_most);
          at_least = inr (omega arith);
          stops =
              one_more left (length rest.requests)
                (attempts platform left (suc attempt) workflow_id (next_try attempt i)) rest.stops;
          same_locks = rest.same_locks;
        })
  ]
