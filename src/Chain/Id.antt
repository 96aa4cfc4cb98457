-- ===== src/Chain/Id.antt =====
-- `ChainId` of r402/src/chain.rs, with its text form.
pub mod RoundTrip
use Prim.Native.Char.{Char}
use Prim.Native.String.{◌++◌}
use r.Base.{
  String, ◌≡◌, ◌↔◌, Bool, true, ◌&&◌, Option, none, some, List, [], ◌∷◌, arith, Outcome, ok, err,
  Eq, string_eq, ◌=?◌, eq_iff,
}
use r.Base.Text.{split_once}

abbrev pub colon : Char
colon = ":"

pub record ChainId : Type 0 where
  pub namespace : String
  pub reference : String

-- `ChainIdFormatError(String)`
pub data ChainIdFormatError : Type 0 where
  chain_id_format : String → ChainIdFormatError

-- `Display`; `Serialize` writes the same text.
unfoldable pub to_string : ChainId → String
to_string c = c.namespace ++ String.◌∷◌ colon c.reference

-- `str::splitn(2, ':')`
abbrev splits : String → Option (String × String) → List String
splits s none = s ∷ []
splits s (some (before, after)) = before ∷ after ∷ []

-- The test `parts.len() != 2` and what follows it.
abbrev of_parts : String → List String → Outcome ChainId ChainIdFormatError
of_parts s [] = err (chain_id_format s)
of_parts s (n ∷ []) = err (chain_id_format s)
of_parts s (n ∷ ref ∷ []) = ok (record { namespace = n; reference = ref })
of_parts s (n ∷ ref ∷ more ∷ rest) = err (chain_id_format s)

-- `FromStr`; `Deserialize` reads the same text.
unfoldable pub from_str : String → Outcome ChainId ChainIdFormatError
from_str s = of_parts s (splits s (split_once colon s))

-- The derived `PartialEq`.
unfoldable pub chain_id_beq : ChainId → ChainId → Bool
chain_id_beq a b = a.namespace =? b.namespace && a.reference =? b.reference

pub chain_id_beq_iff : (a b : ChainId) → (chain_id_beq a b ≡ true) ↔ (a ≡ b)
unfolding chain_id_beq
chain_id_beq_iff a b =
    ground (arith, eq_iff a.namespace b.namespace, eq_iff a.reference b.reference)

instance abbrev pub chain_id_eq : Eq ChainId
chain_id_eq = record { beq = chain_id_beq; beq_iff = chain_id_beq_iff }
