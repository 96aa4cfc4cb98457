-- ===== src/Scheme/Slug.antt =====
-- `SchemeSlug` of r402/src/scheme/registry.rs: what a scheme handler is registered under.
use Prim.Native.String.{◌++◌}
use r.Base.{String, ◌≡◌, ◌↔◌, Bool, true, ◌&&◌, Eq, ◌=?◌, string_eq, arith, eq_iff}
use r.Chain.Id.{ChainId, chain_id_eq, chain_id_beq_iff}

pub record SchemeSlug : Type 0 where
  pub chain_id : ChainId
  pub name : String

abbrev pub wildcard_chain : ChainId → ChainId
wildcard_chain c = record { namespace = c.namespace; reference = "*" }

unfoldable pub as_wildcard : SchemeSlug → SchemeSlug
as_wildcard slug = record { chain_id = wildcard_chain slug.chain_id; name = slug.name }

unfoldable pub is_wildcard : SchemeSlug → Bool
is_wildcard slug = slug.chain_id.reference =? "*"

-- `Display`
unfoldable pub to_string : SchemeSlug → String
to_string slug = slug.chain_id.namespace ++ (":" ++ (slug.chain_id.reference ++ (":" ++ slug.name)))

-- The derived `PartialEq`.
unfoldable pub slug_beq : SchemeSlug → SchemeSlug → Bool
slug_beq a b = a.chain_id =? b.chain_id && a.name =? b.name

pub slug_beq_iff : (a b : SchemeSlug) → (slug_beq a b ≡ true) ↔ (a ≡ b)
unfolding slug_beq
slug_beq_iff a b = ground (arith, chain_id_beq_iff a.chain_id b.chain_id, eq_iff a.name b.name)

instance abbrev pub slug_eq : Eq SchemeSlug
slug_eq = record { beq = slug_beq; beq_iff = slug_beq_iff }
