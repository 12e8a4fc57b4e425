-- ===== src/Catalog/Duplicates.antt =====
-- crates/catalog-core/src/wire.rs: `reject_duplicate_json` and its visitor.
pub mod Exact
use fluxsemble_runtime_catal.Base.{
  ℕ, ◌≤◌, ◌≡◌, ◌≢◌, ◌↔◌, refl, Bool, true, false, ◌&&◌, ◌||◌, not, List, [], ◌∷◌, Text, ok, err,
  ◌>>=◌, ◌>>◌, ok_or, leb, ltb, length, contains, Eq, arith, All, Distinct, Lacks-contains,
  contains-Lacks, Bool-cases, inl, inr, if◌then◌else◌,
}
use fluxsemble_runtime_catal.Strings.Split.{text_class}
use fluxsemble_runtime_catal.Catalog.Require.{Core, invalid_catalog, require}
use fluxsemble_runtime_catal.Catalog.Externals.{
  Externals, Json, JsonItems, JsonFields, null, bool, integer, negative, float, string, seq, map,
  end, item, close, field,
}

-- DuplicateVisitor; `keys` is the set of the keys met in the object so far
unfoldable mutual
  pub visit : Json → Core (Unit {0})
  visit null = ok tt
  visit (bool b) = ok tt
  visit (integer n) = ok tt
  visit (negative n) = ok tt
  visit (float finite) = require finite
  visit (string s) = ok tt
  visit (seq items) = visit_seq items
  visit (map fields) = visit_map fields []

  pub visit_seq : JsonItems → Core (Unit {0})
  visit_seq end = ok tt
  visit_seq (item value items) = visit value >> visit_seq items

  pub visit_map : JsonFields → List Text → Core (Unit {0})
  visit_map close keys = ok tt
  visit_map (field key value fields) keys =
      if ltb 64 (length key) || contains keys key
      then err invalid_catalog
      else (visit value >> visit_map fields (key ∷ keys))

unfoldable pub reject_duplicate_json : Externals → Text → Core (Unit {0})
reject_duplicate_json x bytes = ok_or invalid_catalog (x.json_tree bytes) >>= visit
