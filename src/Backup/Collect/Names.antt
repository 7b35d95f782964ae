-- ===== src/Backup/Collect/Names.antt =====
-- How the specifications of a backup select objects by their names.
use kahu.Api.{BackupSpec, ResourceSpec}
use kahu.Unstructured.{Object}
use kahu.Utils.Select.{Regexp}
use kahu.Backup.Collect.{is_selected, is_resource_need_backup}
use kahu.Base.{
  ◌≡◌, refl, Bool, true, false, not, ◌&&◌, List, [], ◌∷◌, arith, eq_iff, ◌==◌, is_empty, any, all,
}

-- A specification of a whole kind: no pattern, and no name.
unfoldable pub is_whole_kind : ResourceSpec → Bool
is_whole_kind spec = not spec.is_regex && spec.name == ""

none_selected :
    (compile : Regexp) (o : Object) (specs : List ResourceSpec)
    → (o.name == "") ≡ false
    → all is_whole_kind specs ≡ true
    → any (is_selected compile o) specs ≡ false
unfolding all any is_whole_kind is_selected
none_selected compile o [] named whole = refl
none_selected compile o (spec ∷ specs) named whole =
    let ih = none_selected compile o specs named (ground arith) in
    ground (arith, eq_iff spec.name "", eq_iff o.name "", eq_iff o.name spec.name)

-- A backup that includes whole kinds only, without names, takes no object that has a name: the test
-- for the empty name is made on the object.
pub is_resource_need_backup_whole_kinds :
    (compile : Regexp) (spec : BackupSpec) (o : Object)
    → is_empty spec.include_resources ≡ false
    → all is_whole_kind spec.include_resources ≡ true
    → (o.name == "") ≡ false
    → is_resource_need_backup compile spec o ≡ false
unfolding is_resource_need_backup
is_resource_need_backup_whole_kinds compile spec o some_ whole named =
    let selected = none_selected compile o spec.include_resources named whole in ground arith
