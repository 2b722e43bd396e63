-- ===== src/Tests/Registry.antt =====
-- src/routes/plugin.rs, users.rs and the entry of admin.rs, at the server of the other tests.
use birthday_role.Prelude.{
  ◌≡◌, refl, false, none, some, List, [], ◌∷◌, ◌++◌, Text, codes, text_eq, any, if◌then◌else◌,
}
use birthday_role.Prelude.Results.{ok, err}
use birthday_role.Prelude.Options.{map_or}
use birthday_role.Prelude.Int.{pos}
use birthday_role.Prelude.Split.{strip_prefix}
use birthday_role.Errors.{unauthorized}
use birthday_role.Sync.{Link, find_link, same_link, of_link}
use birthday_role.Access.{Caller}
use birthday_role.Routes.{Store, refused}
use birthday_role.Routes.Plugin.{
  extract_token, default_rule_tree, upsert_link, register, delete_link, delete_config,
}
use birthday_role.Routes.Versions.{IsKeyed}
use birthday_role.Routes.Registered.{register-IsRegistered}
use birthday_role.Routes.Deleted.{delete_config-IsDeleted}
use birthday_role.Tests.Handlers.{store, link, no_jobs}

-- RoleLogic, with a token.
abbrev role_logic : Text → Caller
role_logic token = record {
  headers =
      λ name. if text_eq name (codes "authorization") then some (codes "Token " ++ token) else none;
  cookies = λ name. none;
}

abbrev links_of : List Link → Store
links_of links = record {
  world = record { links = links; members = []; assignments = []; calls = [] };
  settings = (codes "g", codes "managers") ∷ [];
  queue = no_jobs;
}

abbrev renewed : Link
renewed = record {
  guild_id = codes "g";
  role_id = codes "r";
  api_token = codes "new";
  rule_tree = link.rule_tree;
  rule_tree_version = pos 3;
}

registers :
    register (role_logic (codes "new")) (codes "g") (codes "r") store
    ≡ (ok tt, links_of (renewed ∷ []))
unfolding register extract_token strip_prefix upsert_link
registers = refl

register-IsRegistered_example :
    (token : Text) × (l : Link) × (extract_token (role_logic (codes "new")) ≡ ok token)
    × (find_link (codes "g") (codes "r") (renewed ∷ []) ≡ some l)
    × (l.api_token ≡ token)
    × (l.rule_tree
        ≡ map_or default_rule_tree
            (λ o. o.rule_tree)
            (find_link (codes "g") (codes "r") store.world.links))
    × (l.rule_tree_version
        ≡ map_or
            (pos 1)
            (λ o. o.rule_tree_version)
            (find_link (codes "g") (codes "r") store.world.links))
    × ((g' r' : Text)
        → same_link (codes "g") (codes "r") g' r' ≡ false
        → find_link g' r' (renewed ∷ []) ≡ find_link g' r' store.world.links)
    × (◌≡◌ {A = List _} [] store.world.members)
    × (◌≡◌ {A = List _} [] store.world.assignments)
    × (no_jobs ≡ store.queue)
    × IsKeyed (renewed ∷ [])
register-IsRegistered_example =
    register-IsRegistered (role_logic (codes "new")) (codes "g") (codes "r") store
      (links_of (renewed ∷ [])) (refl, tt) registers

refuses :
    delete_config (role_logic (codes "new")) (codes "g") (codes "r") store
    ≡ (err (refused unauthorized), store)
unfolding delete_config extract_token strip_prefix delete_link
refuses = refl

deletes :
    delete_config (role_logic (codes "new")) (codes "g") (codes "r") (links_of (renewed ∷ []))
    ≡ (ok tt, links_of [])
unfolding delete_config extract_token strip_prefix delete_link
deletes = refl

delete_config-IsDeleted_example :
    (token : Text) × (l : Link) × (extract_token (role_logic (codes "new")) ≡ ok token)
    × (find_link (codes "g") (codes "r") (renewed ∷ []) ≡ some l)
    × (l.api_token ≡ token)
    × (find_link (codes "g") (codes "r") [] ≡ none)
    × (any (of_link (codes "g") (codes "r")) [] ≡ false)
    × ((g' r' : Text)
        → same_link (codes "g") (codes "r") g' r' ≡ false
        → find_link g' r' [] ≡ find_link g' r' (renewed ∷ []))
    × (◌≡◌ {A = List _} [] store.world.members)
    × (no_jobs ≡ no_jobs)
delete_config-IsDeleted_example =
    delete_config-IsDeleted (role_logic (codes "new")) (codes "g") (codes "r")
      (links_of (renewed ∷ [])) (links_of []) (refl, tt) deletes

abbrev open_to_members : Store
open_to_members = record {
  world = store.world;
  settings = (codes "g", codes "members") ∷ [];
  queue = no_jobs;
}
