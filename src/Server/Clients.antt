-- ===== src/Server/Clients.antt =====
-- Who may use the server while clients are bound, server/src/main.cpp.
use encoder_next.Prelude.{
  ◌≡◌, inl, inr, refl, ap, ◌∙◌, Bool, true, false, Option, none, some, Bytes, bytes_eq,
  bytes_eq_sound, find, find-put, Bool-cases, ℤ,
}
use encoder_next.Server.Context.{ServerContext, ClientBindingRecord}
use encoder_next.Server.Binding.{met, register_client, allowed_by, is_client_allowed}

met_allowed :
    (enabled : Bool) (now : ℤ) (label : Bytes) (found : Option ClientBindingRecord)
    → allowed_by enabled (some (met enabled now label found)) ≡ allowed_by enabled found
met_allowed false now label found = refl
met_allowed true now label none = refl
met_allowed true now label (some r) = refl

-- Registering a client, new or known, changes for no client whether it is allowed: while clients are
-- bound, one that the administrator has not allowed does not get in by showing up.
pub is_client_allowed-register_client :
    (client other label : Bytes) (now : ℤ) (ctx : ServerContext)
    → is_client_allowed other (register_client client label now ctx) ≡ is_client_allowed other ctx
unfolding is_client_allowed register_client
is_client_allowed-register_client client other label now ctx =
    let new = met ctx.binding_enabled now label (find client ctx.client_bindings) in
    ap (allowed_by ctx.binding_enabled) (find-put client other new ctx.client_bindings)
    ∙ elim (Bool-cases (bytes_eq client other)) [
      | inl e ↦ rw e (
          met_allowed ctx.binding_enabled now label (find client ctx.client_bindings)
          ∙ ap (λ x. allowed_by ctx.binding_enabled (find x ctx.client_bindings))
              (bytes_eq_sound client other e))
      | inr e ↦ rw e refl
    ]
