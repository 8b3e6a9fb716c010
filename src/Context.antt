-- ===== src/Context.antt =====
-- internal/auth/context.go: the values that the middleware puts into a request's context. A value
-- is found by its key, the one that was put in last.
use braza_sso.Prelude.{Option, none, some, List, [], ◌∷◌, Text}

pub data ContextKey : Type 0 where
  key_user_id key_email : ContextKey

abbrev pub Context : Type 0
Context = List (ContextKey × Text)

-- The context of a request that no middleware has touched.
abbrev pub background : Context
background = []

abbrev pub with_value : ContextKey → Text → Context → Context
with_value key value context = (key, value) ∷ context

abbrev pub user_id_from_context : Context → Option Text
user_id_from_context [] = none
user_id_from_context ((key_user_id, value) ∷ context) = some value
user_id_from_context ((key_email, value) ∷ context) = user_id_from_context context
