-- ===== src/Tests/Runs.antt =====
-- A run that renders and publishes the egress configuration.
use proxyctl.Prelude.{List, [], ◌∷◌, ◌++◌, Option, none, some, ◌≡◌, refl, true, false}
use proxyctl.Text.{Text, codes, encode, equal}
use proxyctl.Table.{Table}
use proxyctl.Files.{Files, Kind, Node, absent, got, directory, regular}
use proxyctl.Safex.Codes.{Result, ok}
use proxyctl.Writer.Names.{Bytes}
use proxyctl.Writer.Kernel.{Kernel, linux}
use proxyctl.Render.Run.{Options, Rendered, Material, bundle_or_fail_closed, prepare, render}
use proxyctl.Render.Prepared.{Prepared, prepare-Prepared}
use proxyctl.Render.Published.{Published}
use proxyctl.Tests.Documents.{egress_text}
use proxyctl.Tests.Credentials.{egress_bundle}
use proxyctl.Tests.Files.{good_machine}

abbrev template_text : Text
template_text = codes "listen: ${LISTEN}\nauth: ${GATEWAY_NODE_PASSWORD_1}\n"

abbrev node_of : Kind → Node
node_of kind = record { kind = kind; mode = 0o644; size = 100; owner = none }

-- A directory of templates and a config file.
abbrev pub repository : Files
repository = record {
  statfs = λ path. absent;
  lstat = λ path. elim (equal path (codes "/templates")) [
    | true ↦ got (node_of directory)
    | false ↦ got (node_of regular)
  ];
  read_file = λ path. elim (equal path (codes "/etc/egress.yaml")) [
    | true ↦ got egress_text
    | false ↦ got template_text
  ];
}

abbrev pub join_path : Text → Text → Text
join_path dir name = dir ++ codes "/" ++ name

abbrev pub same_path : Text → Text
same_path path = path

abbrev pub resolved : Text → Option Text
resolved path = some path

-- The template stands for the one with the digest of the allow-list.
abbrev pub pinned_digest : Text → Text
pinned_digest text = codes "7164721b0c1e3204b70937c6bf1e994f7c2d0587a05c1db6cb08376bb90b2e5e"

abbrev pub loaded : Text → Result (Option Material)
loaded role = bundle_or_fail_closed (some egress_bundle)

abbrev pub egress_options : Options
egress_options = record {
  role = codes "egress";
  template_dir = codes "/templates";
  config_path = codes "/etc/egress.yaml";
  out_dir = codes "/out";
}

abbrev published_names : List Text
published_names =
    codes "egress-rendered.yaml"
    ∷ codes "egress.crt"
    ∷ codes "egress.key"
    ∷ codes "gateway-client-ca.crt"
    ∷ []

abbrev published_files : Table Bytes
published_files =
    (codes "egress-rendered.yaml", codes "listen: \"0.0.0.0:443\"\nauth: \"secret\"\n")
    ∷ (codes "egress.crt", codes "secret\n")
    ∷ (codes "egress.key", codes "secret\n")
    ∷ (codes "gateway-client-ca.crt", codes "secret\n")
    ∷ []

egress_prepares :
    prepare repository resolved join_path same_path pinned_digest loaded egress_options
    ≡ ok (published_files, published_names)
unfolding prepare proxyctl.Text.width proxyctl.Text.size proxyctl.Text.valid_string
    proxyctl.Text.equal proxyctl.Text.has_prefix proxyctl.Text.cut proxyctl.Text.contains
    proxyctl.Text.split proxyctl.Text.join proxyctl.Text.trim_left proxyctl.Text.trim_right
    proxyctl.Text.trim proxyctl.Text.is_space proxyctl.Text.trim_space proxyctl.Text.ends_with
    proxyctl.Text.init proxyctl.Text.is_digit proxyctl.Text.is_lower proxyctl.Text.is_upper
    proxyctl.Text.trim_prefix proxyctl.Text.trim_suffix proxyctl.Text.member
    proxyctl.Text.encode_one proxyctl.Text.encode proxyctl.Table.lookup proxyctl.Table.assign
    proxyctl.Table.without proxyctl.Net.cut_last proxyctl.Net.cut_first proxyctl.Net.split_host_port
    proxyctl.Net.join_host_port proxyctl.Config.Document.role_text
    proxyctl.Config.Document.parse_role proxyctl.Config.Document.parse_profile
    proxyctl.Config.Document.is_placeholder proxyctl.Config.Document.scalar_or_empty
    proxyctl.Config.Document.section_items proxyctl.Config.Document.scalar
    proxyctl.Config.Document.role_allowlist proxyctl.Config.Document.section_allowlist
    proxyctl.Config.Document.is_section_name proxyctl.Config.Lines.split_kv
    proxyctl.Config.Lines.append_item proxyctl.Config.Lines.item_line proxyctl.Config.Lines.top_line
    proxyctl.Config.Lines.field_line proxyctl.Config.Lines.is_item
    proxyctl.Config.Lines.content_line proxyctl.Config.Lines.parse_line
    proxyctl.Config.Lines.parse_lines proxyctl.Config.Posture.fields_of
    proxyctl.Config.Posture.mismatches proxyctl.Config.Posture.is_expected
    proxyctl.Config.Posture.check_listeners proxyctl.Config.Posture.validate_gateway_listeners
    proxyctl.Config.Posture.is_machine_user proxyctl.Config.Posture.port_of_listener
    proxyctl.Config.Posture.controller_host proxyctl.Config.Posture.listens_everywhere
    proxyctl.Config.Posture.check_scalar proxyctl.Config.Posture.has_text
    proxyctl.Config.Posture.check_role proxyctl.Config.Posture.public_mixed_port
    proxyctl.Config.Posture.check_users proxyctl.Config.Posture.validate_network_posture
    proxyctl.Config.Validate.check_section proxyctl.Config.Validate.real_secret
    proxyctl.Config.Validate.real_password proxyctl.Config.Validate.validate
    proxyctl.Config.Parse.parse proxyctl.Yaml.hex_digit proxyctl.Yaml.rune
    proxyctl.Yaml.quote_default proxyctl.Yaml.quote_rune proxyctl.Yaml.quote_body
    proxyctl.Yaml.quote_yaml proxyctl.Yaml.is_yaml_control
    proxyctl.Yaml.contains_placeholder_fragment proxyctl.Yaml.Value.is_unsigned_decimal
    proxyctl.Yaml.Value.decimal proxyctl.Yaml.Value.parse_uint32 proxyctl.Yaml.Value.port_in_range
    proxyctl.Yaml.Value.is_dns_label proxyctl.Yaml.Value.is_dns_hostname
    proxyctl.Yaml.Value.is_valid_address proxyctl.Yaml.Value.reject_unsafe_value
    proxyctl.Yaml.Emit.out_of_bounds proxyctl.Yaml.Emit.emit_kind proxyctl.Yaml.Emit.emit
    proxyctl.Render.Schema.kind_of proxyctl.Render.Schema.bounds_of proxyctl.Render.Template.search
    proxyctl.Render.Template.vars_on proxyctl.Render.Template.template_vars
    proxyctl.Render.Template.dangling_on proxyctl.Render.Template.contains_dangling_placeholder
    proxyctl.Render.Template.is_declared proxyctl.Render.Template.validate_template
    proxyctl.Render.Template.check_no_traversal proxyctl.Render.Substitute.replace_on
    proxyctl.Render.Substitute.replace_all proxyctl.Render.Substitute.upper_char
    proxyctl.Render.Substitute.value_entries proxyctl.Render.Substitute.listen_entry
    proxyctl.Render.Substitute.placeholder_values proxyctl.Render.Substitute.config_value
    proxyctl.Render.Substitute.config_step proxyctl.Render.Substitute.config_names
    proxyctl.Render.Substitute.substitute_config proxyctl.Render.Substitute.is_hysteria_user
    proxyctl.Render.Substitute.derived_auth proxyctl.Render.Substitute.credential_value
    proxyctl.Render.Substitute.place_credential proxyctl.Render.Substitute.credential_step
    proxyctl.Render.Substitute.credential_names proxyctl.Render.Substitute.check_resolved
    proxyctl.Render.Substitute.substitute_credentials proxyctl.Render.Assets.role_asset_names
    proxyctl.Render.Assets.rendered_name proxyctl.Render.Assets.add_assets
    proxyctl.Render.Assets.collect_files proxyctl.Render.Run.bundle_or_fail_closed
    proxyctl.Render.Run.allowed_template proxyctl.Render.Run.read_file_no_symlink
    proxyctl.Render.Run.parse_file proxyctl.Render.Run.check_template_dir
    proxyctl.Render.Run.check_options proxyctl.Render.Run.check_confined
    proxyctl.Render.Run.read_template proxyctl.Render.Run.load_material
    proxyctl.Writer.Names.has_key proxyctl.Writer.Names.ordered proxyctl.Writer.Names.check_names
    proxyctl.Writer.Names.validate_output_names proxyctl.Credential.Bundle.required_scalars
    proxyctl.Credential.Bundle.required_assets proxyctl.Credential.Bundle.optional_assets
    proxyctl.Credential.Bundle.scalar_for_placeholder proxyctl.Credential.Bundle.bundle_role
    proxyctl.Credential.Bundle.close proxyctl.Credential.Bundle.bundle_scalar
    proxyctl.Credential.Bundle.before proxyctl.Credential.Bundle.insert_asset
    proxyctl.Credential.Bundle.sort_assets proxyctl.Credential.Bundle.materialize
    proxyctl.Net.Ip.parses_ip
egress_prepares = refl

prepare-Prepared_example :
    Prepared repository resolved join_path same_path pinned_digest loaded egress_options
      published_files published_names
prepare-Prepared_example =
    prepare-Prepared repository resolved join_path same_path pinned_digest loaded egress_options
      published_files published_names egress_prepares

abbrev pub egress_rendered : Rendered
egress_rendered = record {
  role = codes "egress";
  files = published_names;
  template_dir = codes "/templates";
}

pub egress_renders :
    (render repository resolved join_path same_path pinned_digest loaded linux egress_options
      good_machine).0
    ≡ ok egress_rendered
unfolding render proxyctl.Text.equal proxyctl.Text.has_prefix proxyctl.Text.split
    proxyctl.Text.member proxyctl.Table.lookup proxyctl.Table.assign proxyctl.Table.without
    proxyctl.Writer.Names.has_key proxyctl.Writer.Names.ordered proxyctl.Writer.Names.check_names
    proxyctl.Writer.Names.validate_output_names proxyctl.Writer.Transaction.bytes_of
    proxyctl.Writer.Transaction.close_file proxyctl.Writer.Transaction.sync_file
    proxyctl.Writer.Transaction.fill_file proxyctl.Writer.Transaction.stage_one
    proxyctl.Writer.Transaction.stage_all proxyctl.Writer.Transaction.publish_one
    proxyctl.Writer.Transaction.publish_all proxyctl.Writer.Transaction.settle
    proxyctl.Writer.Transaction.settle_run proxyctl.Writer.Transaction.body
    proxyctl.Writer.Transaction.remove_staged proxyctl.Writer.Transaction.rollback
    proxyctl.Writer.Transaction.conclude proxyctl.Writer.Transaction.with_staging
    proxyctl.Writer.Transaction.enter_staging proxyctl.Writer.Transaction.open_staging
    proxyctl.Writer.Transaction.make_staging proxyctl.Writer.Transaction.refusal
    proxyctl.Writer.Transaction.refuse_one proxyctl.Writer.Transaction.refuse_existing
    proxyctl.Writer.Transaction.start_staging proxyctl.Writer.Transaction.with_output
    proxyctl.Writer.Transaction.hold_output proxyctl.Writer.Transaction.open_output
    proxyctl.Writer.Transaction.transaction proxyctl.Writer.Kernel.add_absent
    proxyctl.Writer.Kernel.tick_on proxyctl.Writer.Kernel.tick proxyctl.Writer.Kernel.syscall
    proxyctl.Writer.Kernel.make_staging_dir proxyctl.Writer.Kernel.mkdir_at
    proxyctl.Writer.Kernel.make_file proxyctl.Writer.Kernel.make_if
    proxyctl.Writer.Kernel.inspect_made proxyctl.Writer.Kernel.create_at proxyctl.Writer.Kernel.fill
    proxyctl.Writer.Kernel.write_file proxyctl.Writer.Kernel.link_entry
    proxyctl.Writer.Kernel.link_if proxyctl.Writer.Kernel.link_at proxyctl.Writer.Kernel.drop_staged
    proxyctl.Writer.Kernel.unlink_staged proxyctl.Writer.Kernel.unlink_linked
    proxyctl.Writer.Kernel.publish proxyctl.Writer.Kernel.remove_same
    proxyctl.Writer.Kernel.remove_found proxyctl.Writer.Kernel.remove_if_same_at
    proxyctl.Writer.Kernel.drop_staging_dir proxyctl.Writer.Kernel.rmdir_at
    proxyctl.Writer.Kernel.lstat_at proxyctl.Writer.Kernel.linux proxyctl.Writer.Walk.find
    proxyctl.Writer.Walk.opened proxyctl.Writer.Walk.open_at proxyctl.Writer.Walk.walk
    proxyctl.Writer.Walk.check_mode proxyctl.Writer.Walk.open_output_dir
egress_renders = rw (egress_prepares, render) refl
