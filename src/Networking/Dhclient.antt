-- ===== src/Networking/Dhclient.antt =====
-- internal/engine/networking.go: the lease files of dhclient. A position in a content is what stands
-- from there on, with the byte before it; a jump forward is a number of bytes to pass over.
pub mod Escapes
use facts.Base.{
  ℕ, zero, suc, ◌+◌, ◌-◌, Bool, true, false, not, ◌&&◌, ◌||◌, List, [], ◌∷◌, ◌++◌, Option, none,
  some, length, take, leb, is_nil, any, ◌==◌, if◌then◌else◌,
}
use facts.Base.Text.{Text, text, text_eq, has_prefix, mem_text}
use facts.Groups.Environment.{drop}

-- `isDHClientSpace`
abbrev pub is_dhclient_space : ℕ → Bool
is_dhclient_space b = b == b' ' || b == b'\t' || b == b'\n' || b == b'\r'

-- `isDHClientWordByte`
abbrev pub is_dhclient_word_byte : ℕ → Bool
is_dhclient_word_byte b =
    b == b'_'
    || b == b'-'
    || b == b'.'
    || (leb b'0' b && leb b b'9')
    || (leb b'A' b && leb b b'Z')
    || (leb b'a' b && leb b b'z')

abbrev is_line_end : ℕ → Bool
is_line_end b = b == b'\n' || b == b'\r'

-- `skipDHClientComment`
unfoldable pub skip_dhclient_comment : Text → Text
skip_dhclient_comment [] = []
skip_dhclient_comment (c ∷ s) =
    let rest = skip_dhclient_comment s in if c == b'\n' then c ∷ s else rest

-- `skipDHClientSpaceAndComments`, in a comment or not
unfoldable skip_from : Bool → Text → Text
skip_from comment [] = []
skip_from comment (c ∷ s) =
    let rest = skip_from (if comment then not (c == b'\n') else c == b'#') s in
    if comment || is_dhclient_space c || c == b'#' then rest else c ∷ s

unfoldable pub skip_dhclient_space_and_comments : Text → Text
unfolding skip_from
skip_dhclient_space_and_comments s = skip_from false s

begins_line_end : Text → Bool
begins_line_end [] = false
begins_line_end (c ∷ s) = is_line_end c

-- The loop of `skipDHClientQuotedString`
unfoldable skip_quoted : Text → Text
unfolding begins_line_end
skip_quoted [] = []
skip_quoted (c ∷ []) = if is_line_end c then c ∷ [] else []
skip_quoted (c ∷ d ∷ s) =
    let next = skip_quoted (d ∷ s) in
    let escaped = skip_quoted s in
    if is_line_end c
    then c ∷ d ∷ s
    else if c == b'\\'
    then if is_line_end d then d ∷ s else escaped
    else if c == b'"'
    then d ∷ s
    else next

-- `skipDHClientQuotedString`, from the quote on
unfoldable pub skip_dhclient_quoted_string : Text → Text
unfolding skip_quoted drop
skip_dhclient_quoted_string s = skip_quoted (drop 1 s)

word_at : Option ℕ → Bool
word_at none = false
word_at (some b) = is_dhclient_word_byte b

first_byte : Text → Option ℕ
first_byte [] = none
first_byte (c ∷ s) = some c

-- `dhclientKeywordAt`
unfoldable pub dhclient_keyword_at : Option ℕ → Text → Text → Bool
unfolding word_at first_byte drop
dhclient_keyword_at prev s keyword =
    not (word_at prev)
    && has_prefix s keyword
    && not (word_at (first_byte (drop (length keyword) s)))

-- A quoted value with what stands behind it, or none.
pub data Quoted : Type 0 where
  broken : Quoted
  closed : Text → Text → Quoted

-- What the loop returns at the closing quote.
read_value : Bool → Text → Text → Text
read_value escaped out chunk = if escaped then out ++ chunk else chunk

-- The loop of `dhclientQuotedStringValue`: whether it has met an escape, what it has written, and the
-- bytes from `start` on, which an escape writes only where it is the first one.
unfoldable quoted_value : Bool → Text → Text → Text → Quoted
unfolding read_value
quoted_value escaped out chunk [] = broken
quoted_value escaped out chunk (c ∷ []) =
    if c == b'"' then closed (read_value escaped out chunk) [] else broken
quoted_value escaped out chunk (c ∷ d ∷ s) =
    let written = if escaped then out else out ++ chunk in
    let next = quoted_value escaped out (chunk ++ (c ∷ [])) (d ∷ s) in
    let behind = quoted_value true (written ++ (d ∷ [])) [] s in
    if is_line_end c
    then broken
    else if c == b'\\'
    then if is_line_end d then broken else behind
    else if c == b'"'
    then closed (read_value escaped out chunk) (d ∷ s)
    else next

-- `dhclientQuotedStringValue`
unfoldable pub dhclient_quoted_string_value : Text → Quoted
unfolding quoted_value
dhclient_quoted_string_value [] = broken
dhclient_quoted_string_value (c ∷ s) = if c == b'"' then quoted_value false [] [] s else broken

module _ {ℓ} {A : Type ℓ} where
  add_found : Option A → List A → List A
  add_found none found = found
  add_found (some a) found = a ∷ found

  -- A loop over a content: a round gives how many bytes it passes over beyond the first, and what it
  -- found.
  unfoldable pub scan_content : (Option ℕ → Text → ℕ × Option A) → ℕ → Option ℕ → Text → List A
  unfolding add_found
  scan_content round n prev [] = []
  scan_content round (suc n) prev (c ∷ s) = scan_content round n (some c) s
  scan_content round zero prev (c ∷ s) =
      let r = round prev (c ∷ s) in add_found r.1 (scan_content round r.0 (some c) s)

-- How many bytes lie between the second byte of a text and its end.
abbrev pub passed : Text → Text → ℕ
passed s rest = length s - suc (length rest)

-- A round that passes over a comment or a quoted string, or else does what `other` does.
unfoldable pub skipping {ℓ} : {A : Type ℓ} → Text → ℕ × Option A → ℕ × Option A
unfolding skip_dhclient_comment skip_dhclient_quoted_string
skipping [] other = other
skipping (c ∷ s) other =
    if c == b'#'
    then (passed (c ∷ s) (skip_dhclient_comment (c ∷ s)), none)
    else if c == b'"'
    then (passed (c ∷ s) (skip_dhclient_quoted_string (c ∷ s)), none)
    else other

name_of : Text → Quoted → ℕ × Option Text
name_of s broken = (0, none)
name_of s (closed value rest) = (passed s rest, some value)

unfoldable name_round : Option ℕ → Text → ℕ × Option Text
unfolding skipping name_of dhclient_keyword_at skip_dhclient_space_and_comments
    dhclient_quoted_string_value drop
name_round prev s = skipping s (
    if not (dhclient_keyword_at prev s (text "interface"))
    then (0, none)
    else name_of s (dhclient_quoted_string_value (skip_dhclient_space_and_comments (drop 9 s))))

-- `dhclientInterfaceNames`
unfoldable pub dhclient_interface_names : Text → List Text
unfolding scan_content name_round
dhclient_interface_names content = scan_content name_round 0 none content

-- `dhclientContentHasInterface` and `dhclientContentMatchesInterface`
unfoldable pub dhclient_content_has_interface : Text → Bool
unfolding dhclient_interface_names
dhclient_content_has_interface content = not (is_nil (dhclient_interface_names content))

unfoldable pub dhclient_content_matches_interface : Text → Text → Bool
unfolding dhclient_interface_names
dhclient_content_matches_interface content name = mem_text name (dhclient_interface_names content)

-- What is before the end of a value.
value_text : Text → Text
value_text [] = []
value_text (c ∷ s) =
    let rest = value_text s in if is_dhclient_space c || c == b';' then [] else c ∷ rest

server_of : (Text → Option Text) → Text → Text → ℕ × Option Text
unfolding value_text drop
server_of ip s value_start =
    let value = value_text value_start in (passed s (drop (length value) value_start), ip value)

-- A keyword behind spaces and comments: the byte before it is none of a word.
unfoldable server_round : (Text → Option Text) → Option ℕ → Text → ℕ × Option Text
unfolding skipping server_of dhclient_keyword_at skip_dhclient_space_and_comments drop
server_round ip prev s =
    let key = skip_dhclient_space_and_comments (drop 6 s) in
    skipping s (
      if not (dhclient_keyword_at prev s (text "option"))
      then (0, none)
      else if not (dhclient_keyword_at none key (text "dhcp-server-identifier"))
      then (0, none)
      else server_of ip s (skip_dhclient_space_and_comments (drop 22 key)))

last_text : Text → List Text → Text
last_text t [] = t
last_text t (u ∷ ts) = last_text u ts

-- `linuxDHClientDHCPServer`, where `ip` is an IPv4 address that `net.ParseIP` reads, printed again
unfoldable pub linux_dhclient_dhcp_server : (Text → Option Text) → Text → Text
unfolding scan_content server_round last_text
linux_dhclient_dhcp_server ip content = last_text [] (scan_content (server_round ip) 0 none content)
