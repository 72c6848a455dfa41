-- ===== src/Catalog/Create.antt =====
-- `CreateTopic` either publishes the topic, in memory and in the catalog, or changes no topic.
use marchiq.Base.{
  ◌≡◌, refl, ap, ◌∙◌, sym, Bool, true, false, not, List, [], ◌∷◌, ◌++◌, Option, none, some, ◌⊎◌,
  inl, if_rule, pos_part, Result, ok, err,
}
use marchiq.Names.{Name, eq_name, eq_name_refl, name_lt_asym, name_lt_below, TopicConfig, validate}
use marchiq.Maps.{get, set, get-set, set-append}
use marchiq.Sorting.{sort, sort_again}
use marchiq.Saving.{save, saved_file, unsaved_file, OnlyLastFailed}
use marchiq.Broker.{Broker, Topic}
use marchiq.Catalog.{
  TopicsMetadata, configs, config_lt, list_topics, catalog_version, CreateIo, make_files, new_topic,
  catalog_with, Created, publish_topic, create_valid, create_checked, create_topic, is_some,
}

-- The catalog's file lists the topics of the broker.
abbrev pub catalog_of : Broker → TopicsMetadata
catalog_of b = record { version = catalog_version; topics = list_topics b }

-- What `CreateTopic` may do: publish the topic, or fail and leave the broker as it is. Where it
-- fails the file is the old one, unless the sync of the directory at the very end is what failed:
-- then it names the topic already.
abbrev pub Outcome : CreateIo → Broker → TopicsMetadata → TopicConfig → Created → Type 0
Outcome io b live cfg (ok u, after, file) =
    (get eq_name cfg.name b.topics ≡ none)
    × (get eq_name cfg.name after.topics ≡ some (new_topic b cfg))
    × (after.topics ≡ b.topics ++ ((cfg.name, new_topic b cfg) ∷ []))
    × (file ≡ catalog_of after)
Outcome io b live cfg (err e, after, file) =
    (after ≡ b) × ((file ≡ live) ⊎ ((file ≡ catalog_with b cfg) × OnlyLastFailed io.catalog))

configs-append :
    (ts : List (Name × Topic)) (name : Name) (t : Topic)
    → configs (ts ++ ((name, t) ∷ [])) ≡ configs ts ++ (t.config ∷ [])
configs-append [] name t = refl
configs-append ((n, u) ∷ ts) name t = ap (λ l. u.config ∷ l) (configs-append ts name t)

-- The saved catalog lists the topics of the broker that has the new one.
catalog_with-eq :
    (b : Broker) (cfg : TopicConfig)
    → get eq_name cfg.name b.topics ≡ none
    → catalog_with b cfg
      ≡ catalog_of (record b { topics = set eq_name cfg.name (new_topic b cfg) b.topics })
unfolding list_topics
catalog_with-eq b cfg e =
    ap (λ ts. record { version = catalog_version; topics = ts })
      (sort_again config_lt (λ x y. name_lt_asym x.name y.name)
          (λ x y z. name_lt_below x.name y.name z.name) (configs b.topics) cfg
        ∙ ap (sort config_lt) (sym (configs-append b.topics cfg.name (new_topic b cfg)))
        ∙ ap (λ ts. sort config_lt (configs ts))
            (sym (set-append eq_name cfg.name (new_topic b cfg) b.topics e)))

publish_topic-Outcome :
    (io : CreateIo) (b : Broker) (live : TopicsMetadata) (cfg : TopicConfig)
    (x : Bool × TopicsMetadata)
    → get eq_name cfg.name b.topics ≡ none
    → (x.0 ≡ true → x.1 ≡ catalog_with b cfg)
    → (x.0 ≡ false → (x.1 ≡ live) ⊎ ((x.1 ≡ catalog_with b cfg) × OnlyLastFailed io.catalog))
    → Outcome io b live cfg (publish_topic b cfg x)
publish_topic-Outcome io b live cfg (false, file) e h k = (refl, k refl)
publish_topic-Outcome io b live cfg (true, file) e h k = (
  e,
  get-set eq_name cfg.name (new_topic b cfg) b.topics (eq_name_refl cfg.name),
  set-append eq_name cfg.name (new_topic b cfg) b.topics e,
  h refl ∙ catalog_with-eq b cfg e,
)

is_some-none : {A : Type 0} (o : Option A) → is_some o ≡ false → o ≡ none
is_some-none none h = refl
is_some-none (some x) h = cc

create_valid-Outcome :
    (io : CreateIo) (b : Broker) (live : TopicsMetadata) (cfg : TopicConfig)
    → Outcome io b live cfg (create_valid io b live cfg)
unfolding create_valid
create_valid-Outcome io b live cfg =
    let P = Outcome io b live cfg in
    if_rule P b.closed _ _ (λ _. (refl, inl refl))
      λ _.
        if_rule P (is_some (get eq_name cfg.name b.topics)) _ _ (λ _. (refl, inl refl))
          λ absent.
            if_rule P (not io.dir_missing) _ _ (λ _. (refl, inl refl))
              λ _.
                if_rule P (not (make_files io (pos_part cfg.partitions) 0)) _ _
                  (λ _. (refl, inl refl))
                  λ _.
                    if_rule P (not io.sync_topic) _ _ (λ _. (refl, inl refl))
                      λ _.
                        if_rule P (not io.sync_topics) _ _ (λ _. (refl, inl refl))
                          λ _.
                            publish_topic-Outcome io b live cfg
                              (save io.catalog live (catalog_with b cfg))
                              (is_some-none (get eq_name cfg.name b.topics) absent)
                              (saved_file io.catalog live (catalog_with b cfg))
                              (unsaved_file io.catalog live (catalog_with b cfg))

create_checked-Outcome :
    (io : CreateIo) (b : Broker) (live : TopicsMetadata) (cfg : TopicConfig) (r : Result (Unit {0}))
    → Outcome io b live cfg (create_checked io b live cfg r)
create_checked-Outcome io b live cfg (err e) = (refl, inl refl)
create_checked-Outcome io b live cfg (ok u) = create_valid-Outcome io b live cfg

-- Whatever the file system answers. If `CreateTopic` succeeds, the broker has the topic, with empty
-- partitions, behind the topics that it had, none of that name, and the catalog's file lists exactly
-- the broker's topics, in the order of `ListTopics`. If it fails, the broker is as it was, and the
-- file is the old catalog; or it lists the topic too, and then every call of the save succeeded but
-- the last one, the sync of the directory.
pub create_topic-Outcome :
    (io : CreateIo) (b : Broker) (live : TopicsMetadata) (cfg : TopicConfig)
    → Outcome io b live cfg (create_topic io b live cfg)
unfolding create_topic
create_topic-Outcome io b live cfg = create_checked-Outcome io b live cfg (validate cfg)
