-- ===== src/Clients/SimpleMdm/Answers.antt =====
-- What is known when a request or a read of a group returns: it was the last call, and its answer.
use relops_bootstrap.Prelude.{ℕ, zero, suc, ◌≡◌, refl, ◌&&◌, Option, none, some, ◌∷◌, leb, ltb}
use relops_bootstrap.Effects.{
  World, History, call, Request, get_group as group_request, Response, Body, group, devices, device,
  page, other_body, Group, http, http_call,
}
use relops_bootstrap.Effects.Gives.{Gives, Gives-pure, Gives-raise, Gives-if, Gives-bind, Gives-map}
use relops_bootstrap.Clients.Taskcluster.Busy.{Any}
use relops_bootstrap.Workflow.Draining.{Gives-Any}
use relops_bootstrap.Clients.SimpleMdm.{
  of_http, raise_for_status, send, is_retry_status, max_attempts, request_loop, request, as_group,
  get_assignment_group,
}

-- The last call was the request, and this is its answer.
pub data Answered (q : Request) (r : Response) : History → Type 0 where
  answered : {h : History} → Answered q r (http q (some r) ∷ h)

module _ (w : World) (q : Request) where
  data Asked (o : Option Response) : History → Type 0 where
    asked : {h : History} → Asked o (http q o ∷ h)

  Asked-Answered : (r : Response) (h : History) → Asked (some r) h → Answered q r h
  Asked-Answered r h asked = answered

  Gives-of_http : (o : Option Response) → Gives w (Asked o) (of_http o) (λ r. Answered q r) Any
  unfolding of_http
  Gives-of_http none = Gives-raise _ (λ h x. tt)
  Gives-of_http (some r) = Gives-pure {Q = λ r. Answered q r} r (λ h x. Asked-Answered r h x)

  Gives-http_call : Gives w Any (http_call q) Asked Any
  unfolding http_call call
  Gives-http_call = record { at = λ h p. asked }

  send-Answered : Gives w Any (send q) (λ r. Answered q r) Any
  unfolding send
  send-Answered =
      Gives-bind (λ s. Any) _ _ (Gives-Any _)
        λ secret.
          Gives-bind (λ k. Any) _ _ (Gives-Any _)
            λ key. Gives-bind Asked _ _ Gives-http_call Gives-of_http

  request_loop-Answered :
      (left attempt : ℕ) → Gives w Any (request_loop left attempt q) (λ r. Answered q r) Any
  unfolding request_loop raise_for_status
  request_loop-Answered zero attempt = Gives-raise _ (λ h p. tt)
  request_loop-Answered (suc left) attempt =
      Gives-bind (λ r. Answered q r) _ _ send-Answered
        λ r.
          Gives-if (is_retry_status r.status_code) _ _
            (λ e.
              Gives-map (λ h x. tt) (λ r h x. x)
                (Gives-bind (λ u. Any) _ _ (Gives-Any _)
                  (λ u. request_loop-Answered left (suc attempt))))
            (λ e.
              Gives-if (leb 200 r.status_code && ltb r.status_code 300) _ _
                (λ e. Gives-pure {Q = λ r. Answered q r} r (λ h x. x))
                (λ e. Gives-raise _ (λ h x. tt)))

  pub request-Answered : Gives w Any (request q) (λ r. Answered q r) Any
  unfolding request
  request-Answered = request_loop-Answered max_attempts 0

-- The last call read the group, and this is what it says.
pub record IsRead (id : ℕ) (g : Group) (h : History) : Type 0 where
  pub response : Response
  pub last : Answered (group_request id) response h
  pub body : response.body ≡ group g

module _ (w : World) (id : ℕ) where
  Gives-as_group :
      (r : Response) (b : Body)
      → r.body ≡ b
      → Gives w (Answered (group_request id) r) (as_group b) (λ g. IsRead id g) Any
  unfolding as_group
  Gives-as_group r (group g) e =
      Gives-pure {Q = λ g. IsRead id g} g (λ h x. record { response = r; last = x; body = e })
  Gives-as_group r (devices ds) e = Gives-raise _ (λ h x. tt)
  Gives-as_group r (device d) e = Gives-raise _ (λ h x. tt)
  Gives-as_group r (page items more) e = Gives-raise _ (λ h x. tt)
  Gives-as_group r other_body e = Gives-raise _ (λ h x. tt)

  pub get_assignment_group-IsRead : Gives w Any (get_assignment_group id) (λ g. IsRead id g) Any
  unfolding get_assignment_group
  get_assignment_group-IsRead =
      Gives-bind (λ r. Answered (group_request id) r) _ _ (request-Answered w (group_request id))
        (λ r. Gives-as_group r r.body refl)
