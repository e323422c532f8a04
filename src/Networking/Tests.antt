-- ===== src/Networking/Tests.antt =====
-- Runs of what internal/engine/networking.go reads on Linux, and the theorems about it at work on
-- concrete contents.
use facts.Base.{ℕ, List, ◌≡◌, refl, [], ◌∷◌, ◌++◌}
use facts.Base.Text.{Text, text, text_eq, mem_text, has_prefix}
use facts.Base.Text.Split.{split}
use facts.Networking.Dhclient.{closed, dhclient_quoted_string_value, dhclient_interface_names}
use facts.Networking.Dhclient.Escapes.{
  written, without_middle, dhclient_quoted_string_value-written,
}
use facts.Networking.Leases.{linux_dhclient_lease_blocks}
use facts.Networking.Routes.{linux_route_source_bindings}

abbrev lease_file : Text
lease_file = text "# x\nlease {\n interface \"e0\"; # }\n}\nlease { interface \"e1\"; }\n"

runs_names : dhclient_interface_names lease_file ≡ text "e0" ∷ text "e1" ∷ []
unfolding dhclient_interface_names has_prefix
runs_names = refl

runs_blocks :
    linux_dhclient_lease_blocks lease_file
    ≡ text "lease {\n interface \"e0\"; # }\n}" ∷ text "lease { interface \"e1\"; }" ∷ []
unfolding linux_dhclient_lease_blocks has_prefix
runs_blocks = refl

-- The string a\"b\"c in quotes.
abbrev two_escapes : List (ℕ × Text)
two_escapes = (b'"', text "b") ∷ (b'"', text "c") ∷ []

dhclient_quoted_string_value-written_example :
    dhclient_quoted_string_value (b'"' ∷ (written (text "a") two_escapes ++ (b'"' ∷ text ";")))
    ≡ closed (without_middle (text "a") two_escapes) (text ";")
dhclient_quoted_string_value-written_example =
    dhclient_quoted_string_value-written (text "a") two_escapes (text ";") refl
      (refl, refl, (refl, refl, tt))

runs_two_escapes :
    dhclient_quoted_string_value (text "\"a\\\"b\\\"c\";") ≡ closed (text "a\"\"c") (text ";")
unfolding dhclient_quoted_string_value
runs_two_escapes = refl

runs_routes :
    linux_route_source_bindings
      (split b' ')
      (text "10.0.0.0 dev e0 src 10.0.0.2\nx dev e0 src 10.0.0.2")
    ≡ record { interface = text "e0"; ip = text "10.0.0.2" } ∷ []
unfolding linux_route_source_bindings text_eq mem_text split
runs_routes = refl
