-- ===== src/Routes/Saved.antt =====
-- src/routes/admin.rs: what `role_config_save` does, and who can make it do so.
use birthday_role.Prelude.{
  ℕ, true, false, ◌≡◌, refl, sym, ap, ◌∙◌, inl, inr, Bool-cases, Option, some, any, Text, codes,
}
use mathlib.Core.Path.{subst}
use birthday_role.Prelude.Int.{ℤ, pos, ◌+ℤ◌}
use birthday_role.Prelude.Options.{map_option}
use birthday_role.Prelude.Results.{Result, ok, err, refuse_if, refuse_if-eq-ok, ok-inj}
use birthday_role.Errors.{database, other_db_error}
use birthday_role.Models.Json.{Value}
use birthday_role.Models.Rule.{RuleTree}
use birthday_role.Validator.{RuleError}
use birthday_role.Validator.Rules.{RuleTreeBody}
use birthday_role.Jobs.{enqueue_config_sync}
use birthday_role.Sync.{Link, find_link, same_link}
use birthday_role.Access.{AppState, Caller, RoleConfigAccess, require_role_config_access}
use birthday_role.Routes.{
  Store, Failure, and_then, ◌>>=◌, returned, execute, found, with_world, with_links, with_queue,
}
use birthday_role.Routes.Admin.{
  RoleConfigSaveBody, origin_unless_bearer, is_version, saved_link, update_links, checked,
  save_rule, role_config_save,
}
use birthday_role.Routes.Steps.{Kept, attempt-eq-ok, attempt-Kept, Kept-eq-err}
use birthday_role.Routes.Versions.{
  IsKeyed, find_link-version, update_links-IsKeyed, find_link-update_links, find_link-others,
}

module _ (parse_rule_tree : RuleTreeBody → Result RuleError RuleTree) (message : RuleError → Text)
    (write_tree : RuleTree → Value) (read_tree : Value → Option RuleTree) (now : ℕ) where
  abbrev saved_store : Text → Text → Value → Link → Store → Store
  saved_store g r t l store =
      with_queue
        (with_world store
          (with_links store.world (update_links g r l.rule_tree_version t store.world.links)))
        (enqueue_config_sync now g r store.queue)

  -- A save by this row's version: the row with the rule and the next version, the rest of the links as
  -- they were, and a sync of the link queued.
  abbrev pub IsSave : Text → Text → Value → ℤ → ℤ → Store → Store → Type 0
  IsSave g r t version new_version store store' =
      (l : Link) × (find_link g r store.world.links ≡ some l)
      × (l.rule_tree_version ≡ version)
      × (new_version ≡ version +ℤ pos 1)
      × (find_link g r store'.world.links ≡ some (saved_link t l))
      × ((g' r' : Text)
          → same_link g r g' r' ≡ false
          → find_link g' r' store'.world.links ≡ find_link g' r' store.world.links)
      × (store'.world.members ≡ store.world.members)
      × (store'.queue ≡ enqueue_config_sync now g r store.queue)
      × IsKeyed store'.world.links

  -- The steps after the UPDATE, where the row is there.
  after_update :
      (g r : Text) (store : Store) (o : Option ℤ) (v : ℤ)
      → o ≡ some v
      → and_then
          (λ v.
            execute (λ s. with_queue s (enqueue_config_sync now g r s.queue)) >>= λ _. returned v)
          (found (database (other_db_error (codes "no rows returned"))) o store)
        ≡ (ok v, with_queue store (enqueue_config_sync now g r store.queue))
  after_update g r store o v e = rw e refl

  save_rule-run :
      (g r : Text) (version : ℤ) (t : Value) (store : Store) (l : Link)
      → any (is_version g r version) store.world.links ≡ true
      → find_link g r store.world.links ≡ some l
      → l.rule_tree_version ≡ version
      → save_rule parse_rule_tree message write_tree read_tree now g r version t store
        ≡ (ok (l.rule_tree_version +ℤ pos 1), saved_store g r t l store)
  unfolding save_rule
  save_rule-run g r version t store l updated here same =
      let links = update_links g r l.rule_tree_version t store.world.links in
      rw (updated, ← same)
        (after_update g r (with_world store (with_links store.world links))
          (map_option (λ l. l.rule_tree_version) (find_link g r links))
          (l.rule_tree_version +ℤ pos 1)
          (ap (map_option (λ l. l.rule_tree_version))
            (find_link-update_links g r t store.world.links l here)))

  save_rule-IsSave :
      (g r : Text) (version : ℤ) (t : Value) (store store' : Store) (v : ℤ)
      → IsKeyed store.world.links
      → save_rule parse_rule_tree message write_tree read_tree now g r version t store
        ≡ (ok v, store')
      → IsSave g r t version v store store'
  unfolding save_rule
  save_rule-IsSave g r version t store store' v keyed e =
      elim (Bool-cases (any (is_version g r version) store.world.links)) [
        | inl updated ↦
            let (l, here, same) = find_link-version g r version store.world.links keyed updated in
            let run = sym (save_rule-run g r version t store l updated here same) ∙ e in
            let stored = sym (ap (λ p. p.1) run) in
            let version_is = sym (ok-inj (ap (λ p. p.0) run)) in
            rw stored (
              l,
              here,
              same,
              version_is ∙ ap (λ n. n +ℤ pos 1) same,
              find_link-update_links g r t store.world.links l here,
              (λ g' r' apart.
                  find_link-others g r g' r' l.rule_tree_version t store.world.links apart),
              refl,
              refl,
              update_links-IsKeyed g r l.rule_tree_version t store.world.links keyed,
            )
        | inr none_updated ↦ cc (ap (λ p. p.0) (rw none_updated at e))
      ]

  checked-eq-ok :
      (read : Result RuleError RuleTree) (tree : RuleTree)
      → checked message read ≡ ok tree
      → read ≡ ok tree
  checked-eq-ok (ok t) tree e = ap ok (ok-inj e)
  checked-eq-ok (err x) tree e = cc

  pub role_config_save-IsSave :
      (state : AppState) (caller : Caller) (g r : Text) (body : RoleConfigSaveBody)
      (store store' : Store) (v : ℤ)
      → IsKeyed store.world.links
      → role_config_save parse_rule_tree message write_tree read_tree now state caller g r body
          store
        ≡ (ok v, store')
      → (access : RoleConfigAccess) × (tree : RuleTree) × (origin_unless_bearer state caller
          ≡ ok tt)
        × (require_role_config_access state caller g r ≡ ok access)
        × (access.read_only ≡ false)
        × (parse_rule_tree body.tree ≡ ok tree)
        × IsSave g r (write_tree tree) body.rule_tree_version v store store'
  unfolding role_config_save
  role_config_save-IsSave state caller g r body store store' v keyed e =
      let (u, origin, e1) = attempt-eq-ok (origin_unless_bearer state caller) _ store store' v e in
      let (access, granted, e2) =
        attempt-eq-ok (require_role_config_access state caller g r) _ store store' v e1 in
      let (u', writable, e3) = attempt-eq-ok (refuse_if access.read_only _) _ store store' v e2 in
      let (tree, read, e4) =
        attempt-eq-ok (checked message (parse_rule_tree body.tree)) _ store store' v e3 in
      (
        access,
        tree,
        origin,
        granted,
        refuse_if-eq-ok access.read_only _ u' writable,
        checked-eq-ok (parse_rule_tree body.tree) tree read,
        save_rule-IsSave g r body.rule_tree_version (write_tree tree) store store' v keyed e4,
      )

  save_rule-Kept :
      (g r : Text) (version : ℤ) (t : Value) (store : Store)
      → IsKeyed store.world.links
      → Kept store (save_rule parse_rule_tree message write_tree read_tree now g r version t store)
  unfolding save_rule
  save_rule-Kept g r version t store keyed =
      elim (Bool-cases (any (is_version g r version) store.world.links)) [
        | inl updated ↦
            let (l, here, same) = find_link-version g r version store.world.links keyed updated in
            subst (Kept store) (sym (save_rule-run g r version t store l updated here same)) tt
        | inr none_updated ↦ rw none_updated refl
      ]

  -- A save that fails, for whatever reason, leaves every table as it was.
  pub role_config_save_refused :
      (state : AppState) (caller : Caller) (g r : Text) (body : RoleConfigSaveBody)
      (store store' : Store) (e : Failure)
      → IsKeyed store.world.links
      → role_config_save parse_rule_tree message write_tree read_tree now state caller g r body
          store
        ≡ (err e, store')
      → store' ≡ store
  unfolding role_config_save
  role_config_save_refused state caller g r body store store' e keyed h =
      Kept-eq-err store store' _ e
        (attempt-Kept (origin_unless_bearer state caller) _ store (λ _.
          attempt-Kept (require_role_config_access state caller g r) _ store (λ access.
            attempt-Kept (refuse_if access.read_only _) _ store (λ _.
              attempt-Kept (checked message (parse_rule_tree body.tree)) _ store (λ tree.
                save_rule-Kept g r body.rule_tree_version (write_tree tree) store keyed)))))
        h
