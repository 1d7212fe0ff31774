-- ===== src/Commands/Users/Values.antt =====
-- The handlers of net/commands.c for several keys, counters, pages and typed values: what they do
-- to the users.
use void_cache.Prelude.{
  if_both, ℕ, ◌+◌, refl, ◌∙◌, List, [], ◌∷◌, ◌++◌, Option, none, some, length, codes,
}
use void_cache.Cache.{Err, vc_set}
use void_cache.Proto.Decimal.{pos}
use void_cache.Cache.Get.{vc_get}
use void_cache.Cache.Remove.{vc_del}
use void_cache.Proto.Parse.{Arg}
use void_cache.Commands.Guard.{Session, oom_text}
use void_cache.Commands.Reply.{Host, Reply, err, send}
use void_cache.Commands.Values.{
  with_cache, type_args, mget_args, mget_keys, mget_one, mset_args, mset_end, mset_pairs, pairs_of,
  append_args, append_to, rename_args, rename_to,
}
use void_cache.Commands.Counters.{cmd_incrby, incr_args, incr_key, incr_from}
use void_cache.Commands.Keys.{
  keys_args, key_replies, keys_of_shards, max_keys, scan_args, scan_from,
}
use void_cache.Commands.Typed.{vcget_args, vcset_args, vcset_as, vcset_store, VcType}
use void_cache.Commands.Admin.{cmd_config}
use void_cache.Commands.Users.{Stays, Verifies, send-Stays, guarded-Verifies}
use void_cache.Proto.Write.{twos}
use void_cache.Commands.Guard.{strtoll_value}

module _ (h : Host) where
  sent : (s : Session) (rs : List Reply) → Stays s (send h rs s)
  sent s rs = send-Stays h s s rs (refl, refl)

  read_sent :
      (s : Session) (key : List ℕ) (rs : List Reply)
      → Stays s (send h rs (with_cache s (vc_get h.env.now s.cache key).1))
  read_sent s key rs =
      send-Stays h s (with_cache s (vc_get h.env.now s.cache key).1) rs (refl, refl)

  pub type_args-Stays : (s : Session) (args : List Arg) → Stays s (type_args h s args)
  unfolding type_args
  type_args-Stays s [] = sent s _
  type_args-Stays s (name ∷ []) = sent s _
  type_args-Stays s (name ∷ key ∷ []) = read_sent s key.bytes _
  type_args-Stays s (name ∷ a ∷ b ∷ others) = sent s _

  pub vcget_args-Stays : (s : Session) (args : List Arg) → Stays s (vcget_args h s args)
  unfolding vcget_args
  vcget_args-Stays s [] = sent s _
  vcget_args-Stays s (name ∷ []) = sent s _
  vcget_args-Stays s (name ∷ key ∷ []) = read_sent s key.bytes _
  vcget_args-Stays s (name ∷ a ∷ b ∷ others) = sent s _

  pub mget_keys-Stays : (keys : List Arg) (s : Session) → Stays s (mget_keys h s keys)
  unfolding mget_keys mget_one
  mget_keys-Stays [] s = (refl, refl)
  mget_keys-Stays (key ∷ others) s =
      let (a, b) = mget_keys-Stays others (mget_one h s key.bytes) in
      let (x, y) = read_sent s key.bytes _ in (a ∙ x, b ∙ y)

  pub mget_args-Stays : (s : Session) (args : List Arg) → Stays s (mget_args h s args)
  unfolding mget_args
  mget_args-Stays s [] = sent s _
  mget_args-Stays s (name ∷ []) = sent s _
  mget_args-Stays s (name ∷ key ∷ others) =
      let rs = Reply.array (length (key ∷ others)) ∷ [] in
      let (a, b) = mget_keys-Stays (key ∷ others) (send h rs s) in
      let (x, y) = sent s rs in (a ∙ x, b ∙ y)

  pub keys_args-Stays : (s : Session) (args : List Arg) → Stays s (keys_args h s args)
  unfolding keys_args
  keys_args-Stays s [] = sent s _
  keys_args-Stays s (name ∷ []) = sent s _
  keys_args-Stays s (name ∷ pattern ∷ []) =
      if_both (Stays s) h.env.malloc_ok _ _
        (sent s (key_replies h (keys_of_shards max_keys s.cache.shards))) (sent s (err oom_text))
  keys_args-Stays s (name ∷ a ∷ b ∷ others) = sent s _

  pub scan_args-Stays : (s : Session) (args : List Arg) → Stays s (scan_args h s args)
  unfolding scan_args scan_from
  scan_args-Stays s [] = sent s _
  scan_args-Stays s (name ∷ []) = sent s _
  scan_args-Stays s (name ∷ cursor ∷ options) = sent s _

  pub mset_end-Stays :
      (s : Session) (o : Option (List (List ℕ × List ℕ))) → Stays s (mset_end h s o)
  unfolding mset_end
  mset_end-Stays s none = sent s _
  mset_end-Stays s (some []) = sent s _
  mset_end-Stays s (some (p ∷ ps)) =
      send-Stays h s (with_cache s (mset_pairs h.env s.cache (p ∷ ps))) _ (refl, refl)

  pub mset_args-Stays : (s : Session) (args : List Arg) → Stays s (mset_args h s args)
  unfolding mset_args
  mset_args-Stays s [] = sent s _
  mset_args-Stays s (name ∷ rest) = mset_end-Stays s (pairs_of rest)

  pub append_to-Stays :
      (s : Session) (key more : List ℕ) (answer : Err × List ℕ)
      → Stays s (append_to h s key more answer)
  unfolding append_to
  append_to-Stays s key more (e, val) =
      if_both (Stays s) _ _ _
        (if_both (Stays s) h.env.malloc_ok _ _
          (send-Stays h s (with_cache s (vc_set h.env s.cache key (val ++ more) 0).1)
            (Reply.integer (pos (length val + length more)) ∷ []) (refl, refl))
          (sent s (err oom_text)))
        (send-Stays h s (with_cache s (vc_set h.env s.cache key more 0).1)
          (Reply.integer (pos (length more)) ∷ []) (refl, refl))

  pub append_args-Stays : (s : Session) (args : List Arg) → Stays s (append_args h s args)
  unfolding append_args
  append_args-Stays s [] = sent s _
  append_args-Stays s (name ∷ []) = sent s _
  append_args-Stays s (name ∷ a ∷ []) = sent s _
  append_args-Stays s (name ∷ key ∷ more ∷ []) =
      append_to-Stays (with_cache s (vc_get h.env.now s.cache key.bytes).1) key.bytes more.bytes
        (vc_get h.env.now s.cache key.bytes).0
  append_args-Stays s (name ∷ a ∷ b ∷ c ∷ others) = sent s _

  pub rename_to-Stays :
      (s : Session) (key new : List ℕ) (answer : Err × List ℕ)
      → Stays s (rename_to h s key new answer)
  unfolding rename_to
  rename_to-Stays s key new (e, val) =
      if_both (Stays s) _ _ _
        (if_both (Stays s) h.env.malloc_ok _ _
          (send-Stays h s (with_cache s (vc_set h.env (vc_del h.env s.cache key).1 new val 0).1)
            (Reply.ok ∷ []) (refl, refl))
          (sent s (err oom_text)))
        (sent s (err (codes "no such key")))

  pub rename_args-Stays : (s : Session) (args : List Arg) → Stays s (rename_args h s args)
  unfolding rename_args
  rename_args-Stays s [] = sent s _
  rename_args-Stays s (name ∷ []) = sent s _
  rename_args-Stays s (name ∷ a ∷ []) = sent s _
  rename_args-Stays s (name ∷ key ∷ new ∷ []) =
      rename_to-Stays (with_cache s (vc_get h.env.now s.cache key.bytes).1) key.bytes new.bytes
        (vc_get h.env.now s.cache key.bytes).0
  rename_args-Stays s (name ∷ a ∷ b ∷ c ∷ others) = sent s _

  pub incr_from-Stays :
      (s : Session) (key : List ℕ) (delta : ℕ) (answer : Err × List ℕ)
      → Stays s (incr_from h s key delta answer)
  unfolding incr_from
  incr_from-Stays s key delta (e, val) =
      let t = send h _ s in
      send-Stays h s (with_cache t (vc_set h.env t.cache key _ 0).1) _ (sent s _)

  pub incr_args-Stays :
      (s : Session) (args : List Arg) (delta : ℕ) → Stays s (incr_args h s args delta)
  unfolding incr_args incr_key
  incr_args-Stays s [] delta = sent s _
  incr_args-Stays s (name ∷ []) delta = sent s _
  incr_args-Stays s (name ∷ key ∷ []) delta =
      incr_from-Stays (with_cache s (vc_get h.env.now s.cache key.bytes).1) key.bytes delta
        (vc_get h.env.now s.cache key.bytes).0
  incr_args-Stays s (name ∷ key ∷ amount ∷ []) delta =
      incr_from-Stays (with_cache s (vc_get h.env.now s.cache key.bytes).1) key.bytes
        (twos (strtoll_value amount.bytes)) (vc_get h.env.now s.cache key.bytes).0
  incr_args-Stays s (name ∷ a ∷ b ∷ c ∷ others) delta = sent s _

  pub cmd_incrby-Verifies :
      (s : Session) (args : List Arg) (delta : ℕ) → Verifies s (cmd_incrby h s args delta)
  unfolding cmd_incrby
  cmd_incrby-Verifies s args delta =
      guarded-Verifies h.mem _ s (incr_args h s args delta) (incr_args-Stays s args delta)

  pub vcset_store-Stays :
      (s : Session) (key : List ℕ) (o : Option (List ℕ)) → Stays s (vcset_store h s key o)
  unfolding vcset_store
  vcset_store-Stays s key none = sent s _
  vcset_store-Stays s key (some payload) =
      send-Stays h s (with_cache s (vc_set h.env s.cache key payload 0).1) _ (refl, refl)

  pub vcset_as-Stays :
      (s : Session) (key : List ℕ) (o : Option VcType) (val : List ℕ)
      → Stays s (vcset_as h s key o val)
  unfolding vcset_as
  vcset_as-Stays s key none val = sent s _
  vcset_as-Stays s key (some t) val =
      if_both (Stays s) h.env.malloc_ok _ _ (vcset_store-Stays s key _) (sent s (err oom_text))

  pub vcset_args-Stays : (s : Session) (args : List Arg) → Stays s (vcset_args h s args)
  unfolding vcset_args
  vcset_args-Stays s [] = sent s _
  vcset_args-Stays s (name ∷ []) = sent s _
  vcset_args-Stays s (name ∷ a ∷ []) = sent s _
  vcset_args-Stays s (name ∷ a ∷ b ∷ []) = sent s _
  vcset_args-Stays s (name ∷ key ∷ tname ∷ val ∷ others) = vcset_as-Stays s key.bytes _ val.bytes

  pub cmd_config-Stays : (s : Session) (args : List Arg) → Stays s (cmd_config h s args)
  unfolding cmd_config
  cmd_config-Stays s [] = sent s _
  cmd_config-Stays s (name ∷ []) = sent s _
  cmd_config-Stays s (name ∷ sub ∷ []) = sent s _
  cmd_config-Stays s (name ∷ sub ∷ pat ∷ others) = sent s _
