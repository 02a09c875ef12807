-- ===== src/Expiry/Bridge.antt =====
-- web/static/js/expiry.js: the wrapping of `fetch` by which the data that the page's own script fetches
-- reach `render`. `pathname` is what `new URL(url, location.href)` gives, or nothing where it throws.
use server_status_rust_l.Prelude.{
  String, ℕ, zero, suc, ◌+◌, Bool, true, false, not, ◌&&◌, ◌||◌, Option, none, some, List, [], ◌∷◌,
  ◌==◌, is_empty, if◌then◌else◌, ◌≡◌, refl,
}
use server_status_rust_l.Expiry.Schedule.{Event, bridged, Stats}

-- The first argument of `fetch`: an address, an object with its `url`, if that is a text, or another.
pub data Input : Type 0 where
  address : String → Input
  request : Option String → Input
  other : Input

abbrev url_of : Input → String
url_of (address url) = url
url_of (request (some url)) = url
url_of (request none) = ""
url_of other = ""

module _ (pathname : String → Option String) where
  unfoldable pub is_stats_request : Input → Bool
  is_stats_request input = elim (pathname (url_of input)) [
    | none ↦ false
    | some path ↦ not (is_empty (url_of input)) && path == "/json/stats.json"
  ]

-- The window: whether it has `fetch`, the mark of the bridge, and how often `fetch` is wrapped.
pub record Window : Type 0 where
  pub has_fetch : Bool
  pub is_bridged : Bool
  pub wraps : ℕ

unfoldable pub install_stats_fetch_bridge : Window → Window
install_stats_fetch_bridge w =
    if not w.has_fetch || w.is_bridged
    then w
    else record w { is_bridged = true; wraps = w.wraps + 1 }

unfoldable pub install_times : ℕ → Window → Window
unfolding install_stats_fetch_bridge
install_times zero w = w
install_times (suc n) w = install_times n (install_stats_fetch_bridge w)

-- The events that a response gives, one for each wrapper, if its body is read as data.
wrapped_events : ℕ → Option Stats → List Event
wrapped_events zero body = []
wrapped_events (suc n) none = []
wrapped_events (suc n) (some stats) = bridged stats ∷ wrapped_events n (some stats)

unfoldable pub fetched : (String → Option String) → Window → Input → Option Stats → List Event
unfolding is_stats_request wrapped_events
fetched pathname w input body =
    let events = wrapped_events w.wraps body in
    if is_stats_request pathname input then events else []

settled : (n : ℕ) (w : Window) → (not w.has_fetch || w.is_bridged) ≡ true → install_times n w ≡ w
unfolding install_times install_stats_fetch_bridge
settled zero w h = refl
settled (suc n) w h = rw h (settled n w h)

-- However often the bridge is installed in a window, `fetch` is wrapped once, if there is one.
install_times_lem :
    (n : ℕ) (has_fetch : Bool)
    → install_times (suc n) (record { has_fetch = has_fetch; is_bridged = false; wraps = 0 })
      ≡ record { has_fetch = has_fetch; is_bridged = has_fetch; wraps = if has_fetch then 1 else 0 }
unfolding install_times install_stats_fetch_bridge
install_times_lem n true =
    settled n (record { has_fetch = true; is_bridged = true; wraps = 1 }) refl
install_times_lem n false =
    settled n (record { has_fetch = false; is_bridged = false; wraps = 0 }) refl
