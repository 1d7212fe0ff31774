-- ===== src/Commands/Users/Strings.antt =====
-- The handlers of net/commands.c for plain values: what they do to the users.
use void_cache.Prelude.{if_both, ℕ, refl, List, [], ◌∷◌, Bool, false}
use void_cache.Cache.{Err, Env}
use void_cache.Cache.Get.{vc_get}
use void_cache.Proto.Parse.{Arg}
use void_cache.Commands.Guard.{Session, reply, reply_error, reply_null}
use void_cache.Commands.Strings.{
  get_args, reply_value, exists_args, counted_reply, ttl_args, exists_key, set_args, set_checked,
  set_if_exists, store_value, SetOptions, set_options, del_args, expire_args, set_again,
  persist_args,
}
use void_cache.Commands.Values.{with_cache}
use void_cache.Commands.Users.{Stays}

module _ (m : ℕ → Bool) (env : Env) where
  pub reply_value-Stays : (s : Session) (e : Err) (val : List ℕ) → Stays s (reply_value m s e val)
  unfolding reply_value reply_null reply_error reply
  reply_value-Stays s Err.ok val = (refl, refl)
  reply_value-Stays s Err.oom val = (refl, refl)
  reply_value-Stays s Err.full val = (refl, refl)
  reply_value-Stays s Err.notfnd val = (refl, refl)
  reply_value-Stays s Err.expired val = (refl, refl)
  reply_value-Stays s Err.wal_failed val = (refl, refl)
  reply_value-Stays s Err.inval val = (refl, refl)

  pub get_args-Stays : (s : Session) (args : List Arg) → Stays s (get_args m env s args)
  unfolding get_args reply_error reply
  get_args-Stays s [] = (refl, refl)
  get_args-Stays s (name ∷ []) = (refl, refl)
  get_args-Stays s (name ∷ key ∷ []) =
      let ((e, val), c) = vc_get env.now s.cache key.bytes in
      reply_value-Stays (with_cache s c) e val
  get_args-Stays s (name ∷ a ∷ b ∷ others) = (refl, refl)

  pub exists_args-Stays : (s : Session) (args : List Arg) → Stays s (exists_args m env s args)
  unfolding exists_args counted_reply reply_error reply
  exists_args-Stays s [] = (refl, refl)
  exists_args-Stays s (name ∷ []) = (refl, refl)
  exists_args-Stays s (name ∷ key ∷ others) = (refl, refl)

  pub ttl_args-Stays : (s : Session) (args : List Arg) → Stays s (ttl_args m env s args)
  unfolding ttl_args exists_key reply_error reply
  ttl_args-Stays s [] = (refl, refl)
  ttl_args-Stays s (name ∷ []) = (refl, refl)
  ttl_args-Stays s (name ∷ key ∷ []) = (refl, refl)
  ttl_args-Stays s (name ∷ a ∷ b ∷ others) = (refl, refl)

  pub store_value-Stays :
      (s : Session) (key val : List ℕ) (ttl : ℕ) → Stays s (store_value m env s key val ttl)
  unfolding store_value reply_error reply
  store_value-Stays s key val ttl = if_both (Stays s) _ _ _ (refl, refl) (refl, refl)

  pub set_if_exists-Stays :
      (s : Session) (key val : List ℕ) (o : SetOptions) → Stays s (set_if_exists m env s key val o)
  unfolding set_if_exists exists_key reply_null reply
  set_if_exists-Stays s key val o =
      if_both (Stays s) o.xx _ _
        (if_both (Stays s) _ _ _ (store_value-Stays _ key val o.ttl) (refl, refl))
        (store_value-Stays s key val o.ttl)

  pub set_args-Stays : (s : Session) (args : List Arg) → Stays s (set_args m env s args)
  unfolding set_args set_checked exists_key reply_null reply_error reply
  set_args-Stays s [] = (refl, refl)
  set_args-Stays s (name ∷ []) = (refl, refl)
  set_args-Stays s (name ∷ key ∷ []) = (refl, refl)
  set_args-Stays s (name ∷ key ∷ val ∷ options) =
      let o = set_options options false (record { ttl = 0; nx = false; xx = false }) in
      if_both (Stays s) o.nx _ _
        (if_both (Stays s) _ _ _ (refl, refl) (set_if_exists-Stays _ key.bytes val.bytes o))
        (set_if_exists-Stays s key.bytes val.bytes o)

  pub del_args-Stays : (s : Session) (args : List Arg) → Stays s (del_args m env s args)
  unfolding del_args counted_reply reply_error reply
  del_args-Stays s [] = (refl, refl)
  del_args-Stays s (name ∷ []) = (refl, refl)
  del_args-Stays s (name ∷ key ∷ others) = (refl, refl)

  pub set_again-Stays :
      (s : Session) (key : List ℕ) (answer : Err × List ℕ) (ttl : ℕ)
      → Stays s (set_again m env s key answer ttl)
  unfolding set_again reply_error reply
  set_again-Stays s key (e, val) ttl =
      if_both (Stays s) _ _ _ (if_both (Stays s) env.malloc_ok _ _ (refl, refl) (refl, refl))
        (refl, refl)

  pub expire_args-Stays : (s : Session) (args : List Arg) → Stays s (expire_args m env s args)
  unfolding expire_args reply_error reply
  expire_args-Stays s [] = (refl, refl)
  expire_args-Stays s (name ∷ []) = (refl, refl)
  expire_args-Stays s (name ∷ a ∷ []) = (refl, refl)
  expire_args-Stays s (name ∷ key ∷ ttl ∷ []) = set_again-Stays _ key.bytes _ _
  expire_args-Stays s (name ∷ a ∷ b ∷ c ∷ others) = (refl, refl)

  pub persist_args-Stays : (s : Session) (args : List Arg) → Stays s (persist_args m env s args)
  unfolding persist_args reply_error reply
  persist_args-Stays s [] = (refl, refl)
  persist_args-Stays s (name ∷ []) = (refl, refl)
  persist_args-Stays s (name ∷ key ∷ []) = set_again-Stays _ key.bytes _ 0
  persist_args-Stays s (name ∷ a ∷ b ∷ others) = (refl, refl)
