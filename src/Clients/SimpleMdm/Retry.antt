-- ===== src/Clients/SimpleMdm/Retry.antt =====
-- simplemdm.py: how often a request is sent, what a retried answer leads to, and what the guard of
-- the protected groups keeps away from the service.
use relops_bootstrap.Prelude.{
  arith, ℕ, zero, suc, ◌+◌, ◌≤◌, Bool, true, false, ◌&&◌, leb, ltb, Option, none, some, [], ◌∷◌,
  if◌then◌else◌,
}
use relops_bootstrap.Effects.{
  World, Secret, resolved, unresolved, unset, History, Result, ok, err, Exec, continue, pure, raise,
  when, done, sleep, ◌>>=◌, Request, Response, http, http_call, ask, of_secret,
}
use relops_bootstrap.Clients.SimpleMdm.{send, of_http, raise_for_status, request_loop, request}

-- The exchanges with SimpleMDM.
abbrev pub exchanges : History → ℕ
exchanges [] = 0
exchanges (http q r ∷ h) = suc (exchanges h)
exchanges (_ ∷ h) = exchanges h

-- The action adds at most `n` exchanges, whether it returns or raises.
record Sends {A : Type 0} (w : World) (n : ℕ) (m : Exec A) : Type 0 where
  at : (h : History) → exchanges (m w h).1 ≤ exchanges h + n

module _ {w : World} where
  Sends-continue :
      {A B : Type 0} (n : ℕ) (r : Result A) (f : A → Exec B) (h : History)
      → ((a : A) → Sends w n (f a))
      → exchanges (continue r f w h).1 ≤ exchanges h + n
  Sends-continue n (ok a) f h sf = (sf a).at h
  Sends-continue n (err e) f h sf = omega arith

  Sends-bind :
      {A B : Type 0} (n k : ℕ) {j : ℕ} (m : Exec A) (f : A → Exec B)
      → n + k ≤ j
      → Sends w n m
      → ((a : A) → Sends w k (f a))
      → Sends w j (m >>= f)
  unfolding ◌>>=◌
  Sends-bind n k m f le sm sf = record {
    at = λ h. omega (arith, sm.at h, Sends-continue k (m w h).0 f (m w h).1 sf);
  }

  Sends-if :
      {A : Type 0} {n : ℕ} (b : Bool) (m k : Exec A)
      → Sends w n m
      → Sends w n k
      → Sends w n (if b then m else k)
  Sends-if true m k sm sk = sm
  Sends-if false m k sm sk = sk

  Sends-of_secret : {A : Type 0} (x : Secret A) → Sends w 0 (of_secret x)
  unfolding of_secret pure raise
  Sends-of_secret (resolved a) = record { at = λ h. omega arith }
  Sends-of_secret unresolved = record { at = λ h. omega arith }
  Sends-of_secret unset = record { at = λ h. omega arith }

  Sends-of_http : (r : Option Response) → Sends w 0 (of_http r)
  unfolding of_http pure raise
  Sends-of_http none = record { at = λ h. omega arith }
  Sends-of_http (some r) = record { at = λ h. omega arith }

  Sends-send : (q : Request) → Sends w 1 (send q)
  unfolding send ask http_call
  Sends-send q =
      Sends-bind 0 1 _ _ (omega arith) (record { at = λ h. omega arith })
        λ secret.
          Sends-bind 0 1 _ _ (omega arith) (Sends-of_secret secret)
            λ key. Sends-bind 1 0 _ _ (omega arith) (record { at = λ h. omega arith }) Sends-of_http

  Sends-pause : (b : Bool) (n : ℕ) → Sends w 0 (when b (sleep n))
  unfolding when sleep done pure
  Sends-pause true n = record { at = λ h. omega arith }
  Sends-pause false n = record { at = λ h. omega arith }

  Sends-raise_for_status : (r : Response) → Sends w 0 (raise_for_status r)
  unfolding raise_for_status pure raise
  Sends-raise_for_status r =
      Sends-if (leb 200 r.status_code && ltb r.status_code 300) (pure r) (raise _)
        (record { at = λ h. omega arith }) (record { at = λ h. omega arith })

  Sends-weaken : {A : Type 0} {n k : ℕ} {m : Exec A} → n ≤ k → Sends w n m → Sends w k m
  Sends-weaken le sm = record { at = λ h. omega (arith, sm.at h) }

  Sends-request_loop : (left attempt : ℕ) (q : Request) → Sends w left (request_loop left attempt q)
  unfolding request_loop raise
  Sends-request_loop zero attempt q = record { at = λ h. omega arith }
  Sends-request_loop (suc left) attempt q = Sends-bind 1 left _ _ (omega arith) (Sends-send q) λ r.
      Sends-if _ _ _
        (Sends-bind 0 left _ _ (omega arith) (Sends-pause _ _)
          λ u. Sends-request_loop left (suc attempt) q)
        (Sends-weaken {n = 0} {k = left} (omega arith) (Sends-raise_for_status r))

-- In any world a request to SimpleMDM is sent at most six times, whether it is answered or given up.
pub request-exchanges :
    (w : World) (q : Request) (h : History) → exchanges (request q w h).1 ≤ exchanges h + 6
unfolding request
request-exchanges w q h = (Sends-request_loop 6 0 q).at h
