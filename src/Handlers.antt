-- ===== src/Handlers.antt =====
-- Requests that are handled at the same time: the tasks that serve_http and serve_http2 of
-- crates/service-proxy/src/main.rs, tonic, and handle_quic_conn and handle_http3_conn of
-- quic_proxy/mod.rs spawn. All share one selector, and each calls it twice, before and after its
-- forward; the steps of the tasks interleave in any order.
pub mod InFlight
use service_proxy.Balancer.Kind
use service_proxy.Balancer.Kind.{SelectorKind}
use service_proxy.Balancer.Rng.{Rng}
use service_proxy.Proxy.{choose_upstream, give_back}
use service_proxy.Shared.Text.{Text}
use service_proxy.Shared.{ℕ, ◌≡◌, Option, none, some, List, get_elem?, set, replicate}

-- Where a handler stands.
pub data Handler : Type 0 where
  reading : Handler  -- before the request is read
  choosing : Handler  -- before `selector.next()`
  forwarding : (addr : Text) (tok : ℕ) → Handler  -- in `forward`
  finished : Handler  -- after `selector.release(tok)`, an early return, or a panic

-- What the outside world decides: whether a request can be read, and that a forward ends.
pub data Event : Type 0 where
  go : Event
  arrived : Event
  unreadable : Event
  forwarded : Event

module _ (r : Rng) where
  -- A panic of `next` ends the task.
  abbrev pub chosen :
      (SelectorKind × r.State) × Option (Text × ℕ) → Option ((SelectorKind × r.State) × Handler)
  chosen (selector, some (addr, tok)) = some (selector, forwarding addr tok)
  chosen (selector, none) = some (selector, finished)

  -- The steps of a handler.
  unfoldable pub handler_step :
      SelectorKind × r.State → Handler → Event → Option ((SelectorKind × r.State) × Handler)
  unfolding give_back
  handler_step selector reading arrived = some (selector, choosing)
  handler_step selector reading unreadable = some (selector, finished)
  handler_step selector choosing go = chosen (choose_upstream r selector)
  handler_step selector (forwarding addr tok) forwarded =
      some ((give_back r tok selector).0, finished)
  handler_step selector _ _ = none

  pub record System : Type 0 where
    pub selector : SelectorKind × r.State
    pub handlers : List Handler

  abbrev pub init : List Text → Text → r.State → ℕ → System
  init addrs strategy g n = record {
    selector = (Kind.new_selector addrs strategy, g);
    handlers = replicate n reading;
  }

  -- One handler makes one step.
  pub data Step (s : System) : System → Type 0 where
    moves :
        (i : ℕ) (e : Event) {t t' : Handler} {selector : SelectorKind × r.State}
        → get_elem? s.handlers i ≡ some t
        → handler_step s.selector t e ≡ some (selector, t')
        → Step s (record { selector = selector; handlers = set s.handlers i t' })

  pub data Reach (s : System) : System → Type 0 where
    here : Reach s s
    later : {t u : System} → Reach s t → Step t u → Reach s u
