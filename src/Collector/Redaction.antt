-- ===== src/Collector/Redaction.antt =====
-- What `modifyLogs` of custom-collector/cprocessor/processor.go makes of the attributes.
use micro_market.Base.{
  sym, [], ◌∷◌, ◌∙◌, ap, ◌∷◌, fun_ext, false, refl, subst, inr, inl, map, Bool-cases, List, Option,
  if◌then◌else◌, String, ◌≡◌, Bool, true, not, ◌&&◌, none, some, arith, str_eq, eq_iff,
}
use micro_market.Collector.{
  modify_logs, LogRecord, modify_resource, modify_log, ResourceLogs, Config, Attributes, mark,
  redact,
}

-- What the pdata library documents of its maps: a put shows at its key and at no other.
pub record IsMap (a : Attributes) : Type 0 where
  pub get-put_str :
      (k j s : String) (m : a.Attrs)
      → (v : a.Value) × (a.str v ≡ s)
        × (a.get j (a.put_str k s m) ≡ (if str_eq k j then some v else a.get j m))
  pub get-put_bool :
      (k j : String) (b : Bool) (m : a.Attrs)
      → (v : a.Value) × (a.str v ≡ "")
        × (a.get j (a.put_bool k b m) ≡ (if str_eq k j then some v else a.get j m))

-- The attributes as the texts that they show, by key.
abbrev pub View : Type 0
View = String → Option String

abbrev pub view : (a : Attributes) → a.Attrs → View
view a m k = elim (a.get k m) [ none ↦ none | some v ↦ some (a.str v) ]

-- What becomes of the view of a record's attributes, and of a resource's.
abbrev pub redacted : Option String → Option String
redacted none = none
redacted (some t) = if str_eq t "" then some t else some "[REDACTED]"

abbrev pub expected : Config → View → View
expected cfg f k =
    if str_eq "user.email" k
    then (if cfg.redact_user_email then redacted (f k) else f k)
    else if str_eq "collector.processed" k && cfg.add_log_attribute
    then some ""
    else f k

abbrev pub expected_resource : Config → View → View
expected_resource cfg f k =
    if str_eq "deployment.environment" k && not (str_eq cfg.environment "")
    then some cfg.environment
    else f k

-- Maps that commute at every element commute.
map-square :
    {A B C D : Type 0} (f : A → B) (g : B → D) (h : A → C) (k : C → D)
    → ((x : A) → g (f x) ≡ k (h x))
    → (xs : List A) → map g (map f xs) ≡ map k (map h xs)
map-square f g h k e [] = refl
map-square f g h k e (x ∷ xs) =
    ap (λ y. y ∷ map g (map f xs)) (e x) ∙ ap (λ ys. k (h x) ∷ ys) (map-square f g h k e xs)

-- A change that is not made twice, on a list.
map_fixed :
    {B : Type 0} (f : B → B)
    → ((x : B) → f (f x) ≡ f x)
    → (xs : List B) → map f (map f xs) ≡ map f xs
map_fixed f e [] = refl
map_fixed f e (x ∷ xs) =
    ap (λ y. y ∷ map f (map f xs)) (e x) ∙ ap (λ ys. f x ∷ ys) (map_fixed f e xs)

module _ (a : Attributes) (laws : IsMap a) (cfg : Config) where
  view-mark :
      (k : String) (m : a.Attrs)
      → view a (mark a cfg m) k
        ≡ (if str_eq "collector.processed" k && cfg.add_log_attribute then some "" else view a m k)
  unfolding mark
  view-mark k m = elim (Bool-cases cfg.add_log_attribute) [
    | inl on ↦ let (v, s, e) = laws.get-put_bool "collector.processed" k true m in ground arith
    | inr off ↦ ground arith
  ]

  view-redact :
      (k : String) (m : a.Attrs)
      → view a (redact a cfg m) k ≡ (
          if str_eq "user.email" k && cfg.redact_user_email
          then redacted (view a m k)
          else view a m k)
  unfolding redact
  view-redact k m = go (a.get "user.email" m) refl
    where
      go :
          (o : Option a.Value)
          → a.get "user.email" m ≡ o
          → view a (redact a cfg m) k ≡ (
              if str_eq "user.email" k && cfg.redact_user_email
              then redacted (view a m k)
              else view a m k)
      go none g = ground (arith, eq_iff "user.email" k)
      go (some v) g =
          let (v', s, e) = laws.get-put_str "user.email" k "[REDACTED]" m in
          ground (arith, eq_iff "user.email" k)

  apart : (k : String) → str_eq "user.email" k ≡ true → str_eq "collector.processed" k ≡ false
  apart k e = subst (λ j. str_eq "collector.processed" j ≡ false) ((eq_iff "user.email" k).0 e) refl

  view-record :
      (k : String) (m : a.Attrs)
      → view a (redact a cfg (mark a cfg m)) k ≡ expected cfg (view a m) k
  view-record k m = elim (Bool-cases (str_eq "user.email" k)) [
    | inl e ↦ let p = apart k e in rw (view-redact k (mark a cfg m), view-mark k m) (ground arith)
    | inr e ↦ rw (view-redact k (mark a cfg m), view-mark k m) (ground arith)
  ]

  view-resource :
      (k : String) (m : a.Attrs)
      → view a
          (if not (str_eq cfg.environment "")
            then a.put_str "deployment.environment" cfg.environment m
            else m)
          k
        ≡ expected_resource cfg (view a m) k
  view-resource k m =
      let (v, s, e) = laws.get-put_str "deployment.environment" k cfg.environment m in ground arith

  expected_fixed : (f : View) → expected cfg (expected cfg f) ≡ expected cfg f
  expected_fixed f = fun_ext (λ k. at_key k (f k) refl)
    where
      at_key :
          (k : String) (o : Option String)
          → f k ≡ o
          → expected cfg (expected cfg f) k ≡ expected cfg f k
      at_key k none e = ground arith
      at_key k (some t) e = elim (Bool-cases (str_eq t "")) [
        | inl x ↦ ground arith
        | inr x ↦ ground arith
      ]

  module _ {Rest : Type 0} where
    -- A batch of logs by the texts of its attributes, and what becomes of it.
    abbrev pub log_view : LogRecord a Rest → View × Rest
    log_view log = (view a log.attributes, log.rest)

    abbrev pub resource_view : ResourceLogs a Rest → View × List (List (View × Rest))
    resource_view rl = (view a rl.resource, map (map log_view) rl.scope_logs)

    abbrev pub expected_log : View × Rest → View × Rest
    expected_log (f, rest) = (expected cfg f, rest)

    abbrev pub expected_logs : View × List (List (View × Rest)) → View × List (List (View × Rest))
    expected_logs (f, scopes) = (expected_resource cfg f, map (map expected_log) scopes)

    modify_log-view :
        (log : LogRecord a Rest) → log_view (modify_log a cfg log) ≡ expected_log (log_view log)
    unfolding modify_log
    modify_log-view log =
        ap (λ (f : View). (f, log.rest)) (fun_ext (λ k. view-record k log.attributes))

    modify_resource-view :
        (rl : ResourceLogs a Rest)
        → resource_view (modify_resource a cfg rl) ≡ expected_logs (resource_view rl)
    unfolding modify_resource modify_log
    modify_resource-view rl =
        ap (λ (f : View). (f, map (map log_view) (map (map (modify_log a cfg)) rl.scope_logs)))
          (fun_ext (λ k. view-resource k rl.resource))
        ∙ ap (λ (s : List (List (View × Rest))). (expected_resource cfg (view a rl.resource), s))
            (map-square (map (modify_log a cfg)) (map log_view) (map log_view) (map expected_log)
              (map-square (modify_log a cfg) log_view log_view expected_log modify_log-view)
              rl.scope_logs)

    -- Over maps whose puts show at their key and at no other, the processor keeps every resource,
    -- scope and record of a batch in its place, sets the environment of each resource if it has
    -- one, marks each record if it is to, and replaces the text of an e-mail address in each record
    -- that has one if it is to; it changes nothing else.
    pub modify_logs-view :
        (ld : List (ResourceLogs a Rest))
        → map resource_view (modify_logs a cfg ld) ≡ map expected_logs (map resource_view ld)
    unfolding modify_logs
    modify_logs-view =
        map-square (modify_resource a cfg) resource_view resource_view expected_logs
          modify_resource-view

    expected_logs_fixed :
        (r : View × List (List (View × Rest))) → expected_logs (expected_logs r) ≡ expected_logs r
    expected_logs_fixed (f, scopes) =
        ap (λ (g : View). (g, map (map expected_log) (map (map expected_log) scopes)))
          (fun_ext (λ k. resource_fixed k))
        ∙ ap (λ (s : List (List (View × Rest))). (expected_resource cfg f, s))
            (map_fixed (map expected_log)
              (map_fixed expected_log (λ x. ap (λ (g : View). (g, x.1)) (expected_fixed x.0)))
              scopes)
      where
        resource_fixed :
            (k : String)
            → expected_resource cfg (expected_resource cfg f) k ≡ expected_resource cfg f k
        resource_fixed k = ground arith

    -- Over the same maps, logs that pass the processor twice show what they show after once.
    pub modify_logs-modify_logs :
        (ld : List (ResourceLogs a Rest))
        → map resource_view (modify_logs a cfg (modify_logs a cfg ld))
          ≡ map resource_view (modify_logs a cfg ld)
    modify_logs-modify_logs ld =
        modify_logs-view (modify_logs a cfg ld)
        ∙ ap (map expected_logs) (modify_logs-view ld)
        ∙ map_fixed expected_logs expected_logs_fixed (map resource_view ld)
        ∙ sym (modify_logs-view ld)
