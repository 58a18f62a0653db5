-- ===== src/Smc/Model/Laws.antt =====
-- Which models utils/utils.h takes for rev-less.
use fake_smc3_with_plugins.Prelude.{
  ltb, if◌then◌else◌, length, suc, ◌||◌, none, Bytes, Bool, true, false, Option, some, codes, ◌++◌,
  ◌≢◌,
}
use fake_smc3_with_plugins.Smc.Model.{
  checked_version, is_model_rev_less, find_family, family, hw_strstr, starts_with, parse_suffix,
  before_comma, after_comma, strtol_from,
}

guarded_false :
    (a b : Bool)
    → ◌≢◌ {A = Option Bool} (if a then none else if b then none else some false) (some true)
guarded_false true b = λ e. cc
guarded_false false true = λ e. cc
guarded_false false false = λ e. cc

-- No model whose name starts with "iMacPro" is taken for rev-less, whatever its version: "MacPro",
-- which stands first among the families, is found in it, and no number follows.
pub is_model_rev_less-imac_pro :
    (version : Bytes) → is_model_rev_less (some (codes "iMacPro" ++ version)) ≢ some true
unfolding is_model_rev_less find_family family hw_strstr starts_with parse_suffix before_comma
    after_comma strtol_from checked_version
is_model_rev_less-imac_pro version =
    guarded_false (ltb 5 (suc (length version)))
      (ltb 2 (suc (length (before_comma version))) || ltb 2 (length (after_comma version)))
