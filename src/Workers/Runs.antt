-- ===== src/Workers/Runs.antt =====
-- Runs of `serve_pooled` of main.rs and its workers, one after the other.
use service_proxy.Workers.{Channel, Label, Server, Run, here, later}
use service_proxy.Shared.{sym, subst, List, ◌++◌, [], ◌∷◌, append-nil, append_assoc}

module _ {ch : Channel} where
  pub Run-append :
      {s t u : Server ch} {ks ls : List Label}
      → Run ch s ks t
      → Run ch t ls u
      → Run ch s (ks ++ ls) u
  Run-append {s} {t} {ks} r here = subst (λ xs. Run ch s xs t) (sym (append-nil ks)) r
  Run-append {s} {u} {ks} r (later {ls} {l} q step) =
      subst (λ xs. Run ch s xs u) (append_assoc ks ls (l ∷ [])) (later (Run-append r q) step)
