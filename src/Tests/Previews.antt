-- ===== src/Tests/Previews.antt =====
-- src/routes/admin.rs: the preview of a rule that grants the role with any birthday, and the catalogs.
use birthday_role.Prelude.{
  ℕ, ◌≤◌, ◌≡◌, refl, Bool, Option, some, none, List, [], All, Text, codes, to_ascii_lowercase,
  length, min,
}
use birthday_role.Prelude.Results.{ok}
use birthday_role.Prelude.Bytes.{as_bytes, encode_utf8}
use birthday_role.Prelude.Split.{splitn, split_once, strip_prefix}
use birthday_role.Validator.{parse_i64}
use birthday_role.Tokens.{constant_time_eq, gather}
use birthday_role.Tokens.Sessions.{verify_iframe_parts, verify_iframe_session}
use birthday_role.Sql.{build_rule_where}
use birthday_role.Sync.{Link, find_link, tree_of}
use birthday_role.Sync.RoleLink.{qualifying}
use birthday_role.Access.{extract_bearer, require_role_config_access}
use birthday_role.Routes.{Store}
use birthday_role.Routes.Preview.{counted, preview_count_for, role_config_preview}
use birthday_role.Models.Json.{Number}
use birthday_role.Models.Condition.{eq, neq}
use birthday_role.Routes.Catalog.{target_catalog, value_options}
use birthday_role.Routes.Offered.{picked, IsAccepted, target_catalog-IsAccepted}
use birthday_role.Routes.Counted.{role_config_preview-qualifying}
use birthday_role.Tests.Handlers.{state, embedded}
use birthday_role.Tests.Syncs.{world, read, all_rows, shorter, members_of, info, accepts}

abbrev server : Store
server = record {
  world = world;
  settings = [];
  queue = record { rows = []; next_id = 1; notified = 0 };
}

shows_two :
    role_config_preview all_rows members_of read state embedded (codes "g") (codes "r") server
    ≡ (ok (counted 2 2), server)
unfolding role_config_preview preview_count_for require_role_config_access extract_bearer
    strip_prefix verify_iframe_session verify_iframe_parts splitn split_once parse_i64
    constant_time_eq gather as_bytes encode_utf8 tree_of build_rule_where
shows_two = refl

role_config_preview-qualifying_example :
    (server ≡ server)
    × (link : Link) × (ids : List Text) × (find_link (codes "g") (codes "r") world.links
        ≡ some link)
    × (members_of (codes "g") ≡ ok ids)
    × (2 ≤ 2)
    × ((user_limit : ℕ)
        → length (
            qualifying all_rows shorter read members_of info accepts
              (tree_of read link.rule_tree)
              ids
              user_limit
              world)
          ≡ min user_limit 2)
role_config_preview-qualifying_example =
    role_config_preview-qualifying all_rows shorter read members_of info accepts (λ m. refl) state
      embedded (codes "g") (codes "r") server server 2 2 shows_two

-- A compiler of patterns that takes none, and numbers that print as nothing.
abbrev no_pattern : Text → Option (Text → Bool)
no_pattern p = none

abbrev no_number : Number → Text
no_number n = []

target_catalog-IsAccepted_example :
    All
      (λ e.
        All
          (λ c.
            IsAccepted no_pattern to_ascii_lowercase no_number (λ s h. refl) e.key eq c
            × IsAccepted no_pattern to_ascii_lowercase no_number (λ s h. refl) e.key neq c)
          (picked e.options_key value_options))
      target_catalog
target_catalog-IsAccepted_example =
    target_catalog-IsAccepted no_pattern to_ascii_lowercase no_number (λ s h. refl)
