-- ===== src/Tests/Client.antt =====
-- The theorems on clients/go at concrete inputs.
use stencil.Base.{
  ℕ, String, List, [], ◌∷◌, Memᴰ, map, true, false, Option, none, some, ◌≡◌, ◌≢◌, ◌⊎◌, refl, str_eq,
  if◌then◌else◌, any, ltb,
}
use stencil.Base.Outcome.{Outcome, ok, err}
use stencil.Client.Refresh.Newest.{Loaded, version_based_refresh-Loaded}
use stencil.Client.Refresh.{version_based_refresh}
use stencil.Client.Store.{
  Store, Steps, here, next, tick, read, waiting, refreshing, stopped, selecting, new_store,
  get_resolver, notify,
}
use stencil.Client.Store.Runs.{IsServing, store_serves, close_ends}
use stencil.Client.Resolver.{
  FileDescriptor, no_messages, message_with, Registry, default_key_fn, get as find_type,
  register_files,
}
use stencil.Client.Resolver.Names.{get_resolves, declared}
use stencil.Client.Lookup.{Options, parse, serialize, get_descriptor, new_client, set_defaults}
use stencil.Client.Lookup.First.{AreServing, client_answers, new_client-AreServing}

abbrev version_text : ℕ → String
version_text n = if ltb n 3 then "old" else "new"

-- A server that lists the versions 2 and 3.
abbrev server : String → Outcome String (List ℕ)
server url = if str_eq url "http://stencil/versions" then ok (2 ∷ 3 ∷ []) else ok (7 ∷ [])

newest-Loaded :
    Loaded
      (λ content. ok content)
      (λ content. ok content)
      version_text
      server
      "http://stencil/"
      2
      (version_based_refresh
        (λ content. ok content)
        (λ content. ok content)
        version_text
        server
        "http://stencil/"
        2)
newest-Loaded =
    version_based_refresh-Loaded (λ content. ok content) (λ content. ok content) version_text server
      "http://stencil/" 2

-- A store with the value 5 and automatic refresh.
abbrev fresh_store : Store ℕ
fresh_store = record {
  resolver = some 5;
  refresher = selecting;
  open_access = true;
  reads = 0;
  started = 0;
}

abbrev waiting_store : Store ℕ
waiting_store = record fresh_store { refresher = waiting }

abbrev read_store : Store ℕ
read_store = record fresh_store { refresher = refreshing; reads = 1; started = 1 }

abbrev closed_store : Store ℕ
closed_store = record read_store { open_access = false }

fresh_store_made : new_store {E = String} (ok 5) true ≡ ok fresh_store
unfolding new_store
fresh_store_made = refl

waiting_read : get_resolver waiting_store ≡ some (some 5, read_store)
unfolding get_resolver notify
waiting_read = refl

read_run : Steps fresh_store read_store
read_run = next (next here (tick refl)) (read (some 5) read_store waiting_read)

read_store_serves :
    IsServing read_store
    × (((read_store.open_access ≡ true)
          × ((u : Store ℕ) × (get_resolver read_store ≡ some (read_store.resolver, u))
              × (u.resolver ≡ read_store.resolver)
              × (u.open_access ≡ true)))
        ⊎ ((read_store.open_access ≡ false) × (get_resolver read_store ≡ none)))
read_store_serves =
    store_serves {E = String} 5 true fresh_store read_store fresh_store_made read_run

closed_store_ends : (t : Store ℕ) × Steps closed_store t × (t.refresher ≡ stopped)
closed_store_ends = close_ends closed_store refl

abbrev java_file : FileDescriptor
java_file = record {
  package_name = "shop.v1";
  java_package = some "com.shop";
  extensions = [];
  enums = [];
  messages =
      message_with "shop.v1.Order" [] []
        (message_with "shop.v1.Order.Line" [] [] no_messages no_messages) no_messages;
}

-- Types as the list of their messages.
abbrev names_registry : Registry (List String) String
names_registry = record {
  no_types = [];
  register_extension = λ _ t. t;
  register_enum = λ _ t. t;
  register_message = λ n t. n ∷ t;
  find_message_by_name = λ t n. if any (str_eq n) t then some n else none;
}

line_resolves :
    ((file : FileDescriptor) × ((name : String) × Memᴰ (file, name) (declared (java_file ∷ []))
        × ((default_key_fn file name ≡ "com.shop.Order.Line")
            × (find_type names_registry
                  (register_files names_registry (java_file ∷ []))
                  "com.shop.Order.Line"
                ≡ names_registry.find_message_by_name
                    (register_files names_registry (java_file ∷ [])).types
                    name))))
    ⊎ (((file : FileDescriptor) (name : String)
          → Memᴰ (file, name) (declared (java_file ∷ []))
          → default_key_fn file name ≢ "com.shop.Order.Line")
        × (find_type names_registry
              (register_files names_registry (java_file ∷ []))
              "com.shop.Order.Line"
            ≡ names_registry.find_message_by_name
                (register_files names_registry (java_file ∷ [])).types
                "com.shop.Order.Line"))
line_resolves = get_resolves names_registry (java_file ∷ []) "com.shop.Order.Line"

abbrev load_sample : Options → String → Outcome String ℕ
load_sample o url = if str_eq url "bad" then err "bad" else ok o.timeout

abbrev no_options : Options
no_options = record { auto_refresh = true; refresh_interval = 0; timeout = 0 }

abbrev ten_store : Store ℕ
ten_store = record fresh_store { resolver = some 10 }

one_store_made : new_client load_sample ("a" ∷ []) no_options ≡ ok (ten_store ∷ [])
unfolding new_client new_store
one_store_made = refl

one_store-AreServing :
    (rs : List ℕ) × (map (load_sample (set_defaults no_options)) ("a" ∷ []) ≡ map ok rs)
    × AreServing (ten_store ∷ []) rs
one_store-AreServing =
    new_client-AreServing load_sample ("a" ∷ []) no_options (ten_store ∷ []) one_store_made

abbrev class_of : ℕ → String → Option String
class_of r name = if str_eq name "Order" then some "shop.Order" else none

-- `Order` in the client with one store.
order_answers :
    ((ss' : List (Store ℕ)) × (parse class_of
          (λ r m content. ok m)
          (ten_store ∷ [])
          "Order"
          (1 ∷ [])
        ≡ some (ok "shop.Order", ss'))
      × AreServing ss' (10 ∷ []))
    × (((ss' : List (Store ℕ)) × (serialize class_of
              (λ (v : ℕ). ok v)
              (λ r m j. ok m)
              (λ p. ok (1 ∷ []))
              (ten_store ∷ [])
              "Order"
              8
            ≡ some (ok (1 ∷ []), ss'))
          × AreServing ss' (10 ∷ []))
        × ((ss' : List (Store ℕ)) × (get_descriptor class_of (λ m. m) (ten_store ∷ []) "Order"
              ≡ some (ok "shop.Order", ss'))
            × AreServing ss' (10 ∷ [])))
order_answers =
    client_answers class_of (ten_store ∷ []) (10 ∷ []) "Order" (1 ∷ []) (λ r m content. ok m)
      (λ (v : ℕ). ok v) (λ r m j. ok m) (λ p. ok (1 ∷ [])) 8 (λ m. m) (refl, (refl, tt))
