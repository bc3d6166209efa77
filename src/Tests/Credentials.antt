-- ===== src/Tests/Credentials.antt =====
-- Credentials: a source that answers, and a unit's directory.
use proxyctl.Prelude.{◌≡◌, ◌≢◌, refl, ◌⊎◌, ◌%◌, ◌/◌, true, false, [], ◌∷◌, ◌++◌, All, any}
use proxyctl.Text.{Text, codes}
use proxyctl.Safex.Codes.{ok}
use proxyctl.Config.Document.{egress}
use proxyctl.Credential.Bundle.{Bundle}
use proxyctl.Credential.Loader.{Source, found, load}
use proxyctl.Credential.Loaded.{Answers, placeholders_of, load-Answers}
use proxyctl.Credential.UnitDir.{
  Metadata, secure_credential_metadata, components, is_special, rel_unit_dir, check_name_collisions,
}
use proxyctl.Credential.Confined.{
  PairwiseApart, secure_credential_metadata-mode, rel_unit_dir-append,
  check_name_collisions-PairwiseApart,
}

-- Every name holds the same line.
abbrev answering : Source (Unit {0})
answering = record {
  open_source = λ s. (ok tt, s);
  read = λ name s. (found (codes "secret\n"), s);
  check_duplicates = λ s. (ok tt, s);
  close_source = λ s. s;
}

abbrev pub egress_bundle : Bundle
egress_bundle = record {
  role = egress;
  scalars = (codes "GATEWAY_EGRESS_PASSWORD_1", codes "secret") ∷ [];
  assets =
      (codes "egress.crt", codes "secret\n")
      ∷ (codes "egress.key", codes "secret\n")
      ∷ (codes "gateway-client-ca.crt", codes "secret\n")
      ∷ [];
  optional = codes "gateway-client-ca.crt" ∷ [];
  closed = false;
}

egress_loads : load answering egress tt ≡ (ok egress_bundle, tt)
unfolding load proxyctl.Text.equal
egress_loads = refl

load-Answers_example : All (Answers egress_bundle) (placeholders_of egress)
load-Answers_example = load-Answers answering egress tt egress_bundle tt egress_loads

abbrev root_group : Metadata
root_group = record { mode = 0o440; uid = 0; gid = 0 }

secure_credential_metadata-mode_example :
    (root_group.mode % 8 ≡ 0)
    × (root_group.mode / 16 % 2 ≡ 0)
    × ((false ≡ true) ⊎ (root_group.mode / 8 % 2 ≡ 0))
    × ((root_group.mode / 8 % 8 ≡ 0) ⊎ ((root_group.uid ≡ 0) × (root_group.gid ≡ 0)))
unfolding secure_credential_metadata
secure_credential_metadata-mode_example = secure_credential_metadata-mode root_group false refl

rel_unit_dir-append_example :
    (components (codes "/run/credentials//./gateway.service")
      ≡ components (codes "/run/credentials") ++ (codes "gateway.service" ∷ []))
    × (any is_special (codes "gateway.service" ∷ []) ≡ false)
    × (codes "gateway.service" ∷ [] ≢ [])
unfolding rel_unit_dir
rel_unit_dir-append_example =
    rel_unit_dir-append (codes "/run/credentials") (codes "/run/credentials//./gateway.service")
      (codes "gateway.service" ∷ []) refl

check_name_collisions-PairwiseApart_example : PairwiseApart (codes "a.key" ∷ codes "b.key" ∷ [])
unfolding check_name_collisions
check_name_collisions-PairwiseApart_example =
    check_name_collisions-PairwiseApart (codes "a.key" ∷ codes "b.key" ∷ []) refl
