-- ===== src/Networking/Routes.antt =====
-- internal/engine/networking.go: the source addresses of Linux routes, and their bindings.
use facts.Base.{
  Bool, true, false, ◌&&◌, ◌||◌, List, [], ◌∷◌, Option, some, is_nil, any, if◌then◌else◌, ◌≡◌,
  arith, Bool-cases, inl, inr,
}
use facts.Base.Text.{Text, text, text_eq, mem_text}
use facts.Base.Text.Split.{split}
use facts.Value.{Value, str, arr, obj, Items, nil, cons, Fields, end, field, lookup, put}

-- `routeSourceBinding`
pub record RouteSourceBinding : Type 0 where
  pub interface : Text
  pub ip : Text

-- The loop over the fields of a line.
unfoldable pub route_loop : RouteSourceBinding → List Text → RouteSourceBinding
route_loop b [] = b
route_loop b (f ∷ []) = b
route_loop b (f ∷ g ∷ fields) =
    route_loop
      (if text_eq f (text "dev")
        then record { interface = g; ip = b.ip }
        else if text_eq f (text "src")
        then record { interface = b.interface; ip = g }
        else b)
      (g ∷ fields)

unfoldable pub same_binding : RouteSourceBinding → RouteSourceBinding → Bool
same_binding a b = text_eq a.interface b.interface && text_eq a.ip b.ip

-- The loop over the lines, with the bindings seen so far; `fields` is `strings.Fields`.
unfoldable lines_loop :
    (Text → List Text) → List RouteSourceBinding → List Text → List RouteSourceBinding
unfolding route_loop same_binding
lines_loop fields seen [] = []
lines_loop fields seen (line ∷ lines) =
    let b = route_loop (record { interface = []; ip = [] }) (fields line) in
    let dropped =
      mem_text (text "linkdown") (fields line)
      || is_nil b.interface
      || is_nil b.ip
      || any (same_binding b) seen in
    elim dropped [
      | true ↦ lines_loop fields seen lines
      | false ↦ b ∷ lines_loop fields (b ∷ seen) lines
    ]

-- `linuxRouteSourceBindings`
unfoldable pub linux_route_source_bindings : (Text → List Text) → Text → List RouteSourceBinding
unfolding lines_loop split
linux_route_source_bindings fields content = lines_loop fields [] (split b'\n' content)

has_address : Text → Value → Bool
has_address address (obj m) = elim (lookup (text "address") m) [
  | some (str s) ↦ text_eq s address
  | _ ↦ false
]
has_address address v = false

-- `bindingsContainAddress`
unfoldable pub bindings_contain_address : Items → Text → Bool
unfolding has_address
bindings_contain_address nil address = false
bindings_contain_address (cons v vs) address =
    has_address address v || bindings_contain_address vs address

add_item : Items → Value → Items
add_item nil w = cons w nil
add_item (cons v vs) w = cons v (add_item vs w)

-- The bindings of an interface under a key, with a route's address.
unfoldable pub bindings_with : Option Value → Text → Items
unfolding bindings_contain_address add_item
bindings_with (some (arr vs)) ip =
    if bindings_contain_address vs ip
    then vs
    else add_item vs (obj (field (text "address") (str ip) end))
bindings_with o ip = cons (obj (field (text "address") (str ip) end)) nil

-- `addRouteSourceBindings`, which returns the map as it is after the call
unfoldable pub add_route_source_bindings : Text → Fields → List RouteSourceBinding → Fields
unfolding bindings_with
add_route_source_bindings key interfaces [] = interfaces
add_route_source_bindings key interfaces (route ∷ routes) =
    elim (lookup route.interface interfaces) [
      | some (obj m) ↦
          add_route_source_bindings key
            (put route.interface (obj (put key (arr (bindings_with (lookup key m) route.ip)) m))
              interfaces)
            routes
      | _ ↦ add_route_source_bindings key interfaces routes
    ]

-- Bindings that name an interface and an address, each other than those before it.
abbrev pub Distinct : List RouteSourceBinding → List RouteSourceBinding → Type 0
Distinct seen [] = Unit
Distinct seen (b ∷ bs) =
    (is_nil b.interface ≡ false)
    × (is_nil b.ip ≡ false)
    × (any (same_binding b) seen ≡ false)
    × Distinct (b ∷ seen) bs

none_of : (a b c d : Bool) → (a || b || c || d) ≡ false → (b ≡ false) × (c ≡ false) × (d ≡ false)
none_of a b c d h = ground (arith, h)

lines_loop-Distinct :
    (fields : Text → List Text) (seen : List RouteSourceBinding) (lines : List Text)
    → Distinct seen (lines_loop fields seen lines)
unfolding lines_loop
lines_loop-Distinct fields seen [] = tt
lines_loop-Distinct fields seen (line ∷ lines) =
    let b = route_loop (record { interface = []; ip = [] }) (fields line) in
    elim (Bool-cases (
      mem_text (text "linkdown") (fields line)
      || is_nil b.interface
      || is_nil b.ip
      || any (same_binding b) seen)) [
        | inl e ↦ rw (e, Distinct) (lines_loop-Distinct fields seen lines)
        | inr e ↦
            let h =
              none_of (mem_text (text "linkdown") (fields line)) (is_nil b.interface) (is_nil b.ip)
                (any (same_binding b) seen) e in
            rw (e, Distinct) (h.0, h.1, h.2, lines_loop-Distinct fields (b ∷ seen) lines)
      ]

-- The bindings of the routes name an interface and an address each, and no binding is there twice.
pub linux_route_source_bindings-Distinct :
    (fields : Text → List Text) (content : Text)
    → Distinct [] (linux_route_source_bindings fields content)
unfolding linux_route_source_bindings
linux_route_source_bindings-Distinct fields content =
    lines_loop-Distinct fields [] (split b'\n' content)
