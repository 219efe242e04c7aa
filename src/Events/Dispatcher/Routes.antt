-- ===== src/Events/Dispatcher/Routes.antt =====
-- Which channels have a handler, and whose handler it is.
use garrison.Common.{
  ℕ, String, ◌≡◌, ◌≢◌, ◌↔◌, ◌⊎◌, inl, inr, none, some, List, [], ◌∷◌, ◌++◌, arith, eq_iff,
}
use garrison.Events.Dispatcher.{
  RouteTable, Dispatcher, find, route, set_dynamic_routes, keys, unshadowed, channels,
}

-- A channel of the base table keeps its handler whatever the overlay is; any other channel is
-- routed by the overlay set last.
pub route-set_dynamic_routes :
    (d : Dispatcher) (routes : RouteTable) (c : String)
    → ((h : ℕ) → find c d.handlers ≡ some h → route (set_dynamic_routes routes d) c ≡ route d c)
      × (find c d.handlers ≡ none → route (set_dynamic_routes routes d) c ≡ find c routes)
unfolding route set_dynamic_routes
route-set_dynamic_routes d routes c = ((λ h e. ground arith), (λ e. ground arith))

-- `c` is in the list.
abbrev pub IsIn : String → List String → Type 0
IsIn c [] = ⊥
IsIn c (x ∷ xs) = (x ≡ c) ⊎ IsIn c xs

IsIn-append : (c : String) (xs ys : List String) → IsIn c (xs ++ ys) ↔ (IsIn c xs ⊎ IsIn c ys)
IsIn-append c [] ys = (λ h. inr h, λ h. elim h [ inl b ↦ absurd b | inr r ↦ r ])
IsIn-append c (x ∷ xs) ys = ground (arith, IsIn-append c xs ys)

IsIn-keys : (c : String) (m : RouteTable) → IsIn c (keys m) ↔ (find c m ≢ none)
unfolding keys find
IsIn-keys c [] = ground arith
IsIn-keys c ((d, h) ∷ m) = ground (arith, eq_iff d c, IsIn-keys c m)

same_key : (d c : String) (m : RouteTable) → d ≡ c → find d m ≡ find c m
same_key d c m e = rw e

IsIn-unshadowed :
    (c : String) (base m : RouteTable)
    → IsIn c (unshadowed base m) ↔ ((find c base ≡ none) × (find c m ≢ none))
unfolding unshadowed find
IsIn-unshadowed c base [] = ground arith
IsIn-unshadowed c base ((d, h) ∷ m) =
    ground (arith, eq_iff d c, IsIn-unshadowed c base m, same_key d c base)

-- `Channels` lists exactly the channels that `Dispatch` routes.
pub channels_iff : (d : Dispatcher) (c : String) → IsIn c (channels d) ↔ (route d c ≢ none)
unfolding channels route
channels_iff d c = ground (
  arith,
  IsIn-append c (keys d.handlers) (unshadowed d.handlers d.dynamic),
  IsIn-keys c d.handlers,
  IsIn-unshadowed c d.handlers d.dynamic,
)
