-- ===== src/Group/Topics/Laws.antt =====
-- What the topic registry knows of the skills that were registered.
use kaf_claw.Base.{
  Text, lit, text_eq, text_eq_refl, any, any-append, drop, length, length-append, true, Option,
  none, some, List, [], ◌∷◌, ◌++◌, ◌≡◌, refl, arith, inl, inr, Bool-cases, text_eq_sound,
}
use kaf_claw.Group.{skill_topic_prefix, skill_topics, TopicDescriptor}
use kaf_claw.Group.Topics.{
  TopicManager, is_topic, add_skill_topic, before_dot, skill_of, names_from, skill_names, add_name,
  skill_topic,
}

pub drop-append : (p s : Text) → drop (length p) (p ++ s) ≡ s
drop-append [] s = refl
drop-append (c ∷ p) s = drop-append p s

before_dot-append : (s rest : Text) → before_dot s ≡ none → before_dot (s ++ 46 ∷ rest) ≡ some s
unfolding before_dot
before_dot-append [] rest e = refl
before_dot-append (c ∷ s) rest e = ground (arith, before_dot-append s rest)

-- The name of a topic of requests gives its skill back.
skill_of-request :
    (prefix skill : Text) (t : TopicDescriptor)
    → before_dot skill ≡ none
    → t.name ≡ prefix ++ (skill ++ lit ".requests")
    → skill_of prefix t ≡ some skill
unfolding skill_of
skill_of-request prefix skill t d e =
    let longer = length-append prefix (skill ++ lit ".requests") in
    let more = length-append skill (lit ".requests") in
    rw (e, drop-append prefix (skill ++ lit ".requests"))
      (ground (arith, longer, more, before_dot-append skill (lit "requests") d))

names_from-keeps :
    (prefix skill : Text) (topics : List TopicDescriptor) (names : List Text)
    → any (λ n. text_eq n skill) names ≡ true
    → any (λ n. text_eq n skill) (names_from prefix topics names) ≡ true
unfolding names_from
names_from-keeps prefix skill [] names h = h
names_from-keeps prefix skill (t ∷ topics) names h =
    names_from-keeps prefix skill topics (add_name (skill_of prefix t) names)
      (added (skill_of prefix t))
  where
    added : (s : Option Text) → any (λ n. text_eq n skill) (add_name s names) ≡ true
    added none = h
    added (some s) = ground (arith, any-append (λ n. text_eq n skill) names (s ∷ []))

names_from-finds :
    (prefix skill : Text) (topics : List TopicDescriptor) (names : List Text)
    → before_dot skill ≡ none
    → any (is_topic (prefix ++ (skill ++ lit ".requests"))) topics ≡ true
    → any (λ n. text_eq n skill) (names_from prefix topics names) ≡ true
unfolding names_from
names_from-finds prefix skill [] names d h = ground arith
names_from-finds prefix skill (t ∷ topics) names d h =
    elim (Bool-cases (is_topic (prefix ++ (skill ++ lit ".requests")) t)) [
      | inl e ↦ names_from-keeps prefix skill topics _ (
          rw (skill_of-request prefix skill t d (text_eq_sound _ _ e)) (
            ground
              (arith, text_eq_refl skill, any-append (λ n. text_eq n skill) names (skill ∷ []))))
      | inr e ↦ names_from-finds prefix skill topics _ d (ground arith)
    ]

same_group :
    (skill agent : Text) (tm : TopicManager)
    → (add_skill_topic skill agent tm).group_name ≡ tm.group_name
unfolding add_skill_topic
same_group skill agent tm = ground arith

request_topic_added :
    (skill agent : Text) (tm : TopicManager)
    → any
        (is_topic (skill_topics tm.group_name skill).0)
        (add_skill_topic skill agent tm).manifest.skill_topics
      ≡ true
unfolding add_skill_topic
request_topic_added skill agent tm =
    elim (Bool-cases
      (any (is_topic (skill_topics tm.group_name skill).0) tm.manifest.skill_topics)) [
        | inl e ↦ rw (e, add_skill_topic) e
        | inr e ↦
            rw (e, add_skill_topic)
              (ground (
                arith,
                text_eq_refl (skill_topics tm.group_name skill).0,
                any-append (is_topic (skill_topics tm.group_name skill).0) tm.manifest.skill_topics
                    (skill_topic (skill_topics tm.group_name skill).0 agent
                      ∷ skill_topic (skill_topics tm.group_name skill).1 agent
                      ∷ []),
              ))
      ]

-- A skill whose name has no dot is listed once it has been registered, by whomever and whatever else is.
pub skill_names-add :
    (skill agent : Text) (tm : TopicManager)
    → before_dot skill ≡ none
    → any (λ n. text_eq n skill) (skill_names (add_skill_topic skill agent tm)) ≡ true
unfolding skill_names
skill_names-add skill agent tm d = rw (same_group skill agent tm) (
    names_from-finds (skill_topic_prefix tm.group_name) skill
      (add_skill_topic skill agent tm).manifest.skill_topics [] d
      (request_topic_added skill agent tm))

-- A skill that is registered a second time, by any agent, leaves the manifest and its version alone.
pub add_skill_topic-again :
    (skill agent later : Text) (tm : TopicManager)
    → add_skill_topic skill later (add_skill_topic skill agent tm) ≡ add_skill_topic skill agent tm
unfolding add_skill_topic
add_skill_topic-again skill agent later tm =
    present (add_skill_topic skill agent tm) (same_group skill agent tm)
      (request_topic_added skill agent tm)
  where
    present :
        (tm' : TopicManager)
        → tm'.group_name ≡ tm.group_name
        → any (is_topic (skill_topics tm.group_name skill).0) tm'.manifest.skill_topics ≡ true
        → add_skill_topic skill later tm' ≡ tm'
    present tm' g h = rw (g, h) refl
