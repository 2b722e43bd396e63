-- ===== src/Routes/Once.antt =====
-- src/routes/admin.rs: the optimistic lock of a rule, over whatever happens to a link that is not deleted.
use birthday_role.Prelude.{
  ℕ, ◌≡◌, ◌≢◌, refl, sym, ap, ◌∙◌, inl, inr, Bool-cases, arith, Option, some, Text,
}
use birthday_role.Prelude.Int.{ℤ, pos, ◌+ℤ◌, ◌≤ℤ◌, +ℤ_parts, pos_part, neg_part}
use birthday_role.Prelude.Options.{some-inj, map_or}
use birthday_role.Prelude.Results.{Result, ok, Result-cases}
use birthday_role.Models.Json.{Value}
use birthday_role.Models.Rule.{RuleTree}
use birthday_role.Validator.{RuleError}
use birthday_role.Validator.Rules.{RuleTreeBody}
use birthday_role.Sync.{Link, find_link, same_link}
use birthday_role.Access.{AppState, Caller}
use birthday_role.Routes.{Store}
use birthday_role.Routes.Admin.{RoleConfigSaveBody, saved_link, role_config_save}
use birthday_role.Routes.Plugin.{extract_token, register}
use birthday_role.Routes.Steps.{Kept, attempt-Kept, Kept-eq-err}
use birthday_role.Routes.Versions.{IsKeyed, same_link_sound}
use birthday_role.Routes.Saved.{role_config_save-IsSave, role_config_save_refused}
use birthday_role.Routes.Registered.{register-IsRegistered}

register-Kept : (caller : Caller) (g r : Text) (s : Store) → Kept s (register caller g r s)
unfolding register
register-Kept caller g r s = attempt-Kept (extract_token caller) _ s (λ token. tt)

later_version : (v : ℤ) → v ≤ℤ (v +ℤ pos 1)
later_version v = omega (arith, +ℤ_parts v (pos 1))

≤ℤ-refl : (v : ℤ) → v ≤ℤ v
≤ℤ-refl v = omega arith

≤ℤ-trans : (a b c : ℤ) → a ≤ℤ b → b ≤ℤ c → a ≤ℤ c
≤ℤ-trans a b c h k = omega (arith, h, k)

not_later : (v w : ℤ) → (v +ℤ pos 1) ≤ℤ w → w ≢ v
not_later v w h e = omega (arith, +ℤ_parts v (pos 1), ap pos_part e, ap neg_part e, h)

module _ (parse_rule_tree : RuleTreeBody → Result RuleError RuleTree) (message : RuleError → Text)
    (write_tree : RuleTree → Value) (read_tree : Value → Option RuleTree) where
  -- What happens to the tables, short of the deletion of a link: a save of a rule or a registering, of
  -- any link, whether it succeeds or not; or anything that leaves the role links as they are.
  pub data Step : Store → Store → Type 0 where
    saving :
        (now : ℕ) (state : AppState) (caller : Caller) (g r : Text) (body : RoleConfigSaveBody)
        (s : Store)
        → Step s
            (role_config_save parse_rule_tree message write_tree read_tree now state caller g r body
              s).1
    registering : (caller : Caller) (g r : Text) (s : Store) → Step s (register caller g r s).1
    links_kept : (s s' : Store) → s'.world.links ≡ s.world.links → Step s s'

  pub data Steps : Store → Store → Type 0 where
    done : (s : Store) → Steps s s
    next : (s t u : Store) → Step s t → Steps t u → Steps s u

  -- The link is still there, and its version has not gone back.
  abbrev IsLater : Text → Text → Store → Store → Type 0
  IsLater g r s s' =
      (l : Link)
      → find_link g r s.world.links ≡ some l
      → (l' : Link) × (find_link g r s'.world.links ≡ some l')
        × (l.rule_tree_version ≤ℤ l'.rule_tree_version)

  saving-IsLater :
      (now : ℕ) (state : AppState) (caller : Caller) (g r g' r' : Text) (body : RoleConfigSaveBody)
      (s s' : Store) (v : ℤ)
      → IsKeyed s.world.links
      → role_config_save parse_rule_tree message write_tree read_tree now state caller g' r' body s
        ≡ (ok v, s')
      → IsKeyed s'.world.links × IsLater g r s s'
  saving-IsLater now state caller g r g' r' body s s' v keyed e =
      let (a, t, o, d, w, p, (m, here, at_version, new, stored, others, ms, q, keyed')) =
        role_config_save-IsSave parse_rule_tree message write_tree read_tree now state caller g' r'
          body s s' v keyed e in
      (
        keyed',
        λ l there. elim (Bool-cases (same_link g' r' g r)) [
          | inl same ↦
              let (eg, er) = same_link_sound g' r' g r same in
              let here' : find_link g r s.world.links ≡ some m = rw (← eg, ← er) here in
              let is = some-inj (sym there ∙ here') in
              (
                saved_link (write_tree t) m,
                rw (← eg, ← er) stored,
                rw is (later_version m.rule_tree_version),
              )
          | inr apart ↦ (l, others g r apart ∙ there, ≤ℤ-refl l.rule_tree_version)
        ],
      )

  registering-IsLater :
      (caller : Caller) (g r g' r' : Text) (s s' : Store)
      → IsKeyed s.world.links
      → register caller g' r' s ≡ (ok tt, s')
      → IsKeyed s'.world.links × IsLater g r s s'
  registering-IsLater caller g r g' r' s s' keyed e =
      let (token, m, given, stored, tok, rule, version, others, ms, assigned, q, keyed') =
        register-IsRegistered caller g' r' s s' keyed e in
      (
        keyed',
        λ l there. elim (Bool-cases (same_link g' r' g r)) [
          | inl same ↦
              let (eg, er) = same_link_sound g' r' g r same in
              let there' : find_link g' r' s.world.links ≡ some l = rw (eg, er) there in
              let is = version ∙ ap (map_or (pos 1) (λ o. o.rule_tree_version)) there' in
              (m, rw (← eg, ← er) stored, rw is (≤ℤ-refl l.rule_tree_version))
          | inr apart ↦ (l, others g r apart ∙ there, ≤ℤ-refl l.rule_tree_version)
        ],
      )

  same-IsLater :
      (g r : Text) (s s' : Store)
      → s' ≡ s
      → IsKeyed s.world.links
      → IsKeyed s'.world.links × IsLater g r s s'
  same-IsLater g r s s' e keyed = rw e (keyed, λ l there. (l, there, ≤ℤ-refl l.rule_tree_version))

  Step-IsLater :
      (g r : Text) (s s' : Store)
      → Step s s'
      → IsKeyed s.world.links
      → IsKeyed s'.world.links × IsLater g r s s'
  Step-IsLater g r _ _ (saving now state caller g' r' body s) keyed =
      let o =
        role_config_save parse_rule_tree message write_tree read_tree now state caller g' r' body
          s in
      elim (Result-cases (o.0)) [
        | inl (v, e) ↦
            saving-IsLater now state caller g r g' r' body s (o.1) v keyed (ap (λ x. (x, o.1)) e)
        | inr (x, e) ↦
            same-IsLater g r s (o.1)
              (role_config_save_refused parse_rule_tree message write_tree read_tree now state
                caller g' r' body s (o.1) x keyed (ap (λ y. (y, o.1)) e))
              keyed
      ]
  Step-IsLater g r _ _ (registering caller g' r' s) keyed =
      let o = register caller g' r' s in
      elim (Result-cases (o.0)) [
        | inl (u, e) ↦ registering-IsLater caller g r g' r' s (o.1) keyed (ap (λ x. (x, o.1)) e)
        | inr (x, e) ↦
            same-IsLater g r s (o.1)
              (Kept-eq-err s (o.1) o x (register-Kept caller g' r' s) (ap (λ y. (y, o.1)) e)) keyed
      ]
  Step-IsLater g r _ _ (links_kept s s' e) keyed =
      rw e (keyed, λ l there. (l, there, ≤ℤ-refl l.rule_tree_version))

  Steps-IsLater :
      (g r : Text) (s s' : Store)
      → Steps s s'
      → IsKeyed s.world.links
      → IsKeyed s'.world.links × IsLater g r s s'
  Steps-IsLater g r _ _ (done s) keyed = same-IsLater g r s s refl keyed
  Steps-IsLater g r _ _ (next s t u step steps) keyed =
      let (keyed', later) = Step-IsLater g r s t step keyed in
      let (keyed'', later') = Steps-IsLater g r t u steps keyed' in
      (
        keyed'',
        λ l there.
            let (l', there', h) = later l there in
            let (l'', there'', k) = later' l' there' in
            (l'', there'', ≤ℤ-trans _ l'.rule_tree_version _ h k),
      )

  -- Once a save of a link's rule has succeeded, a later save that was edited from the same version does
  -- not, whoever makes it and whatever is between: saves, registerings, and all that leaves the role
  -- links as they are, short of the deletion of a link.
  pub role_config_save_once :
      (now now' : ℕ) (state state' : AppState) (caller caller' : Caller) (g r : Text)
      (body body' : RoleConfigSaveBody) (s s' t t' : Store) (v v' : ℤ)
      → IsKeyed s.world.links
      → body'.rule_tree_version ≡ body.rule_tree_version
      → role_config_save parse_rule_tree message write_tree read_tree now state caller g r body s
        ≡ (ok v, s')
      → Steps s' t
      → role_config_save parse_rule_tree message write_tree read_tree now' state' caller' g r body'
          t
        ≢ (ok v', t')
  role_config_save_once now now' state state' caller caller' g r body body' s s' t t' v v' keyed
        same first steps second =
      let (a, tree, o, d, w, p, (l, here, at_version, new, stored, others, m, q, keyed')) =
        role_config_save-IsSave parse_rule_tree message write_tree read_tree now state caller g r
          body s s' v keyed first in
      let (keyed'', later) = Steps-IsLater g r s' t steps keyed' in
      let (l', there, h) = later _ stored in
      let (
        a',
        tree',
        o',
        d',
        w',
        p',
        (k, here', at_version', new', stored', others', m', q', keyed'''),
      ) =
        role_config_save-IsSave parse_rule_tree message write_tree read_tree now' state' caller' g r
          body' t t' v' keyed'' second in
      let version_there = ap (λ x. x.rule_tree_version) (some-inj (sym there ∙ here')) in
      not_later l.rule_tree_version l'.rule_tree_version h
        (version_there ∙ at_version' ∙ same ∙ sym at_version)
