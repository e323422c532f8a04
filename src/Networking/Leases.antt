-- ===== src/Networking/Leases.antt =====
-- internal/engine/networking.go: the leases of a dhclient file, and the server of an interface.
use facts.Base.{
  ℕ, zero, suc, ◌-◌, Bool, true, false, not, ◌&&◌, ◌||◌, List, [], ◌∷◌, ◌++◌, Option, none, some,
  length, take, leb, is_nil, keep, ◌==◌, if◌then◌else◌,
}
use facts.Base.Text.{Text, text, text_eq}
use facts.Groups.Environment.{drop}
use facts.Networking.Dhclient.{
  skip_dhclient_comment, skip_dhclient_space_and_comments, skip_dhclient_quoted_string,
  dhclient_keyword_at, scan_content, passed, skipping, dhclient_content_has_interface,
  dhclient_content_matches_interface, linux_dhclient_dhcp_server,
}

begins_block : Text → Bool
begins_block [] = false
begins_block (c ∷ s) = c == b'{'

-- `dhclientLeaseBlockStart`
unfoldable pub dhclient_lease_block_start : Option ℕ → Text → Bool
unfolding dhclient_keyword_at skip_dhclient_space_and_comments begins_block drop
dhclient_lease_block_start prev s =
    dhclient_keyword_at prev s (text "lease")
    && begins_block (skip_dhclient_space_and_comments (drop 5 s))

-- What stands behind a block, or where another lease begins in a block that is not closed.
pub data BlockEnd : Type 0 where
  ends : Text → BlockEnd
  unclosed : Text → BlockEnd

block_skip : Text → ℕ
unfolding skip_dhclient_comment skip_dhclient_quoted_string
block_skip [] = 0
block_skip (c ∷ s) =
    if c == b'#'
    then passed (c ∷ s) (skip_dhclient_comment (c ∷ s))
    else if c == b'"'
    then passed (c ∷ s) (skip_dhclient_quoted_string (c ∷ s))
    else 0

abbrev block_depth : ℕ → ℕ → ℕ
block_depth depth c = if c == b'{' then suc depth else if c == b'}' then depth - 1 else depth

-- The loop of `dhclientBlockEnd`, which begins at an opening brace
unfoldable block_loop : ℕ → ℕ → Option ℕ → Text → BlockEnd
unfolding block_skip dhclient_lease_block_start
block_loop n depth prev [] = unclosed []
block_loop (suc n) depth prev (c ∷ s) = block_loop n depth (some c) s
block_loop zero depth prev (c ∷ s) =
    let rest = block_loop (block_skip (c ∷ s)) (block_depth depth c) (some c) s in
    if c == b'}' && depth == 1
    then ends s
    else if not (c == b'#' || c == b'"' || c == b'{' || c == b'}')
        && depth == 1
        && dhclient_lease_block_start prev (c ∷ s)
    then unclosed (c ∷ s)
    else rest

-- `dhclientBlockEnd`
unfoldable pub dhclient_block_end : Text → BlockEnd
unfolding block_loop
dhclient_block_end s = block_loop 0 0 none s

-- A round behind the keyword, at its block.
of_block : Text → BlockEnd → ℕ × Option Text
of_block s (ends rest) = (passed s rest, some (take (length s - length rest) s))
of_block s (unclosed next) = (if leb (length s) (length next) then 0 else passed s next, none)

unfoldable lease_round : Option ℕ → Text → ℕ × Option Text
unfolding skipping of_block dhclient_block_end dhclient_keyword_at skip_dhclient_space_and_comments
    begins_block drop
lease_round prev s =
    let block = skip_dhclient_space_and_comments (drop 5 s) in
    skipping s (
      if not (dhclient_keyword_at prev s (text "lease"))
      then (0, none)
      else if not (begins_block block)
      then (0, none)
      else of_block s (dhclient_block_end block))

-- `linuxDHClientLeaseBlocks`
unfoldable pub linux_dhclient_lease_blocks : Text → List Text
unfolding scan_content lease_round
linux_dhclient_lease_blocks content = scan_content lease_round 0 none content

-- The last of the blocks of an interface.
last_block : List Text → Option Text
last_block [] = none
last_block (b ∷ []) = some b
last_block (b ∷ c ∷ blocks) = last_block (c ∷ blocks)

-- What `linuxDHClientDHCPServerForInterfaceState` returns: the server, whether the interface matched,
-- and whether the content names an interface.
pub record InterfaceState : Type 0 where
  pub server : Text
  pub matched : Bool
  pub has_interface : Bool

-- The choice among the blocks that name an interface.
from_blocks : (Text → Option Text) → Text → Text → List Text → InterfaceState
unfolding last_block dhclient_content_matches_interface linux_dhclient_dhcp_server
from_blocks ip content name blocks =
    elim (last_block (keep (λ b. dhclient_content_matches_interface b name) blocks)) [
      | some block ↦ record {
        server = linux_dhclient_dhcp_server ip block;
        matched = true;
        has_interface = true;
      }
      | none ↦
          if not (is_nil blocks)
          then record {
            server = [];
            matched = dhclient_content_matches_interface content name;
            has_interface = true;
          }
          else if dhclient_content_matches_interface content name
          then record {
            server = linux_dhclient_dhcp_server ip content;
            matched = true;
            has_interface = true;
          }
          else record { server = []; matched = false; has_interface = true }
    ]

-- `linuxDHClientDHCPServerForInterfaceState`
unfoldable pub linux_dhclient_dhcp_server_for_interface_state :
    (Text → Option Text) → Text → Text → InterfaceState
unfolding from_blocks linux_dhclient_lease_blocks dhclient_content_has_interface
linux_dhclient_dhcp_server_for_interface_state ip content name =
    let blocks = linux_dhclient_lease_blocks content in
    if not (dhclient_content_has_interface content)
    then record { server = []; matched = false; has_interface = false }
    else from_blocks ip content name (keep dhclient_content_has_interface blocks)

has_suffix : Text → Text → Bool
unfolding drop
has_suffix s suffix =
    leb (length suffix) (length s) && text_eq (drop (length s - length suffix) s) suffix

-- `leaseFilenameMatchesInterface`
unfoldable pub lease_filename_matches_interface : Text → Text → Bool
unfolding has_suffix
lease_filename_matches_interface name interface =
    has_suffix name (b'-' ∷ (interface ++ text ".lease"))
    || has_suffix name (b'.' ∷ (interface ++ text ".lease"))
    || has_suffix name (b'.' ∷ (interface ++ text ".leases"))
