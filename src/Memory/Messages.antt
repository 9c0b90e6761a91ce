-- ===== src/Memory/Messages.antt =====
-- pkg/providers/protocoltypes/types.go: the messages of a session, and what their JSON text keeps of
-- them. `A` is the type of a map of arguments that is not nil. A nil slice and an empty one are the
-- same list.
use moon_hub.Base.{String, Option, none, List, [], ◌∷◌, ◌≡◌, refl, ap, map}

pub record FunctionCall : Type 0 where
  pub name : String
  pub arguments : String
  pub thought_signature : String

pub record GoogleExtra : Type 0 where
  pub thought_signature : String

pub record ExtraContent : Type 0 where
  pub google : Option GoogleExtra

pub record ToolCall (A : Type 0) : Type 0 where
  pub id : String
  pub call_type : String
  pub function : Option FunctionCall
  pub name : String
  pub arguments : Option A
  pub thought_signature : String
  pub extra_content : Option ExtraContent

pub record CacheControl : Type 0 where
  pub control_type : String

pub record ContentBlock : Type 0 where
  pub block_type : String
  pub text : String
  pub cache_control : Option CacheControl

pub record Message (A : Type 0) : Type 0 where
  pub role : String
  pub content : String
  pub media : List String
  pub reasoning_content : String
  pub system_parts : List ContentBlock
  pub tool_calls : List (ToolCall A)
  pub tool_call_id : String

module _ {A : Type 0} where
  -- The fields with the tag `json:"-"` read back as their zero values.
  abbrev pub reread_call : ToolCall A → ToolCall A
  reread_call call = record call { name = ""; arguments = none; thought_signature = "" }

  -- What decoding the JSON text of a message gives.
  unfoldable pub reread : Message A → Message A
  reread msg = record msg { tool_calls = map reread_call msg.tool_calls }

  reread_calls_twice :
      (calls : List (ToolCall A)) → map reread_call (map reread_call calls) ≡ map reread_call calls
  reread_calls_twice [] = refl
  reread_calls_twice (call ∷ calls) = ap (λ l. reread_call call ∷ l) (reread_calls_twice calls)

  pub reread_twice : (msg : Message A) → reread (reread msg) ≡ reread msg
  unfolding reread
  reread_twice msg =
      ap (λ calls. record msg { tool_calls = calls }) (reread_calls_twice msg.tool_calls)
