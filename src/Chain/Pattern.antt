-- ===== src/Chain/Pattern.antt =====
-- `ChainIdPattern` of r402/src/chain.rs: matching, and its text form.
pub mod Matching
pub mod RoundTrip
use Prim.Native.Char.{Char}
use Prim.Native.String.{◌++◌}
use mathlib.Core.Option
use r.Base.{
  String, Bool, ◌&&◌, Option, none, some, List, [], ◌∷◌, Outcome, ok, err, ◌>>=◌, ◌>>◌, guard,
  refuse, ok_or, ◌=?◌, string_eq, contains, insert_key, if◌then◌else◌,
}
use r.Base.Text.{split_once, split, join, strip_prefix, strip_suffix, trim, is_empty}
use r.Chain.Id.{ChainId, ChainIdFormatError, chain_id_format, colon}

abbrev pub comma : Char
comma = ","

abbrev pub brace_open : Char
brace_open = "{"

abbrev pub brace_close : Char
brace_close = "}"

-- The references of a set are listed in the order in which the set iterates.
pub data ChainIdPattern : Type 0 where
  wildcard : String → ChainIdPattern
  exact : String → String → ChainIdPattern
  set : String → List String → ChainIdPattern

-- `From<ChainId>`
abbrev pub of_chain_id : ChainId → ChainIdPattern
of_chain_id c = exact c.namespace c.reference

unfoldable pub matches : ChainIdPattern → ChainId → Bool
matches (wildcard n) c = c.namespace =? n
matches (exact n ref) c = c.namespace =? n && c.reference =? ref
matches (set n refs) c = c.namespace =? n && contains refs c.reference

unfoldable pub namespace : ChainIdPattern → String
namespace (wildcard n) = n
namespace (exact n ref) = n
namespace (set n refs) = n

-- `{…}` around a text
abbrev pub braced : String → String
braced s = String.◌∷◌ brace_open (s ++ String.◌∷◌ brace_close String.[])

-- What stands behind the colon in `Display`.
abbrev pub print_rest : ChainIdPattern → String
print_rest (wildcard n) = "*"
print_rest (exact n ref) = ref
print_rest (set n refs) = braced (join comma refs)

-- `Display`; `Serialize` writes the same text.
unfoldable pub to_string : ChainIdPattern → String
to_string p = namespace p ++ String.◌∷◌ colon (print_rest p)

-- The loop over `inner.split(',')`; the second argument is `references`.
unfoldable pub read_items :
    String → List String → List String → Outcome (List String) ChainIdFormatError
read_items s refs [] = ok refs
read_items s refs (item ∷ items) =
    let rest = read_items s (insert_key (trim item) refs) items in
    if is_empty (trim item) then err (chain_id_format s) else rest

abbrev is_nil : List String → Bool
is_nil [] = Bool.true
is_nil (_ ∷ _) = Bool.false

-- `rest.strip_prefix('{').and_then(|r| r.strip_suffix('}'))`
unfoldable pub unbrace : String → Option String
unbrace rest = Option.bind (strip_prefix brace_open rest) (strip_suffix brace_close)

-- The set and exact forms.
abbrev read_rest :
    String → String → String → Option String → Outcome ChainIdPattern ChainIdFormatError
read_rest s n rest (some inner) = do
  refs ← read_items s [] (split comma inner)
  refuse (is_nil refs) (chain_id_format s)
  ok (set n refs)
read_rest s n rest none = do refuse (is_empty rest) (chain_id_format s); ok (exact n rest)

abbrev read_parts : String → String × String → Outcome ChainIdPattern ChainIdFormatError
read_parts s (n, rest) = do
  refuse (is_empty n) (chain_id_format s)
  if rest =? "*" then ok (wildcard n) else read_rest s n rest (unbrace rest)

-- `FromStr`; `Deserialize` reads the same text.
unfoldable pub from_str : String → Outcome ChainIdPattern ChainIdFormatError
from_str s = do parts ← ok_or (chain_id_format s) (split_once colon s); read_parts s parts
