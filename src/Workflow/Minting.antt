-- ===== src/Workflow/Minting.antt =====
-- `step_mint` returns only on a SecureToken that was seen.
use relops_bootstrap.Prelude.{ℕ, zero, suc, ◌≡◌, Bool, true, false, Text, codes, contains, strip}
use relops_bootstrap.Effects.{World, History, ok, ask, done, sleep, secure_token, ◌>>=◌}
use relops_bootstrap.Effects.Keeps.{IsStable}
use relops_bootstrap.Effects.Gives.{
  Gives, Gives-pure, Gives-raise, Gives-if, Gives-bind, Gives-done, Gives-map, Post-ok,
}
use relops_bootstrap.Clients.Taskcluster.Busy.{Any}
use relops_bootstrap.Clients.Ssh.{Completed, secure_token_status}
use relops_bootstrap.Workflow.Context.{HostContext}
use relops_bootstrap.Workflow.Token.{is_enabled, enabled_within, step_mint}
use relops_bootstrap.Workflow.Evidence.{Ran}
use relops_bootstrap.Workflow.Wiping.{Returned, run-Returned}
use relops_bootstrap.Workflow.Draining.{Gives-Any}

Any-IsStable : IsStable Any
Any-IsStable = record { after = λ e h quiet p. tt }

-- The last call asked for the admin's SecureToken, and the host said that it is enabled.
abbrev pub IsMinted : World → Text → History → Type 0
IsMinted w fqdn h =
    (cp : Completed) × Ran Any fqdn (secure_token w.settings.ssh_admin_user) cp h
    × (contains (strip cp.stdout) (codes "ENABLED") ≡ true)

module _ (w : World) (fqdn : Text) where
  abbrev Status : Text → History → Type 0
  Status status h = contains status (codes "ENABLED") ≡ true → IsMinted w fqdn h

  Status-Minted : Gives w Any (secure_token_status fqdn) Status Any
  unfolding secure_token_status ask ◌>>=◌
  Status-Minted = record {
    at = λ h p.
        (Gives-bind (Returned Any fqdn (secure_token w.settings.ssh_admin_user) false) _ _
            (run-Returned Any fqdn (secure_token w.settings.ssh_admin_user) false Any-IsStable)
            (λ cp. Gives-pure {Q = Status} (strip cp.stdout) (λ h q said. (cp, q.1, said)))).at
          h p;
  }

  abbrev Seen : Bool → History → Type 0
  Seen enabled h = enabled ≡ true → IsMinted w fqdn h

  is_enabled-Seen : Gives w Any (is_enabled fqdn) Seen Any
  unfolding is_enabled
  is_enabled-Seen = Gives-bind Status _ _ Status-Minted (λ status. Gives-pure _ (λ h q. q))

  enabled_within-Seen : (n : ℕ) → Gives w Any (enabled_within n fqdn) Seen Any
  unfolding enabled_within
  enabled_within-Seen zero = Gives-pure false (λ h p e. absurd (cc))
  enabled_within-Seen (suc n) = Gives-bind Seen _ _ is_enabled-Seen λ enabled.
      Gives-if enabled _ _ (λ e. Gives-pure true (λ h q _. q e))
        (λ _.
          Gives-map (λ h q. tt) (λ b h q. q)
            (Gives-bind (λ u. Any) _ _ (Gives-Any (sleep 5)) (λ u. enabled_within-Seen n)))

step_mint-Gives :
    (w : World) (ctx : HostContext) → Gives w Any (step_mint ctx) (λ u. IsMinted w ctx.fqdn) Any
unfolding step_mint
step_mint-Gives w ctx =
    Gives-bind (λ u. Any) _ _ (Gives-Any _)
      λ u.
        Gives-bind (λ u. Any) _ _ (Gives-Any _)
          λ u. Gives-bind (Seen w ctx.fqdn) _ _ (is_enabled-Seen w ctx.fqdn) λ already.
            Gives-if already done _ (λ e. Gives-done (λ h q. q e))
              (λ _.
                Gives-map (λ h q. tt) (λ u h q. q)
                  (Gives-bind (λ u. Any) _ _ (Gives-Any _)
                    λ u.
                      Gives-bind (Seen w ctx.fqdn) _ _ (enabled_within-Seen w ctx.fqdn 6) λ enabled.
                        Gives-if enabled done _ (λ e. Gives-done (λ h q. q e))
                          (λ _. Gives-raise _ (λ h q. tt))))

-- In any world and after any history: when `step_mint` returns, with or without a login, its last call
-- asked the host for the admin's SecureToken, and the host said that it is enabled.
pub step_mint-IsMinted :
    (w : World) (ctx : HostContext) (h h' : History)
    → step_mint ctx w h ≡ (ok tt, h')
    → IsMinted w ctx.fqdn h'
step_mint-IsMinted w ctx h h' e =
    Post-ok Any (λ u. IsMinted w ctx.fqdn) tt (step_mint ctx w h) h' e
      ((step_mint-Gives w ctx).at h tt)
