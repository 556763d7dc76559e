-- ===== src/Session/Message.antt =====
-- Messages and their content blocks, packages/ftre-agent/src/ftre_agent/message/_block.py and
-- _msg.py: the fields that the derivation of messages reads and writes.
use ftre.Prelude.{
  ℕ, String, Bool, ◌&&◌, Option, none, some, List, [], ◌∷◌, ◌==◌, String_key, if◌then◌else◌,
}
use ftre.Session.Value.{PyValue, PyDict}

pub data ToolCallState : Type 0 where
  pending asking allowed submitted finished : ToolCallState

pub data ToolResultState : Type 0 where
  success error interrupted denied running : ToolResultState

pub record TextBlock : Type 0 where
  pub text : String
  pub id : String
  pub created_at : String
  pub finished_at : Option String

pub record ThinkingBlock : Type 0 where
  pub thinking : String
  pub id : String
  pub created_at : String
  pub finished_at : Option String

pub record DataBlock : Type 0 where
  pub source : PyValue
  pub name : Option String
  pub id : String
  pub created_at : String
  pub finished_at : Option String

pub record HintBlock : Type 0 where
  pub hint : PyValue
  pub source : Option String
  pub id : String
  pub created_at : String
  pub finished_at : Option String

pub record ToolCallBlock : Type 0 where
  pub id : String
  pub name : String
  pub arguments : PyDict
  pub state : ToolCallState
  pub created_at : String
  pub finished_at : Option String

-- A part of a tool's output: a block, or a value that was taken as it is.
pub data OutputPart : Type 0 where
  text_part : TextBlock → OutputPart
  data_part : DataBlock → OutputPart
  raw_part : PyValue → OutputPart

pub data Output : Type 0 where
  plain : String → Output
  parts : List OutputPart → Output

pub record ToolResultBlock : Type 0 where
  pub id : String
  pub name : String
  pub output : Output
  pub state : ToolResultState
  pub metadata : PyDict
  pub created_at : String
  pub finished_at : Option String

pub record ExtensionBlock : Type 0 where
  pub original_type : String
  pub content : PyDict
  pub id : String
  pub created_at : String
  pub finished_at : Option String

pub data ContentBlock : Type 0 where
  text_block : TextBlock → ContentBlock
  thinking_block : ThinkingBlock → ContentBlock
  data_block : DataBlock → ContentBlock
  hint_block : HintBlock → ContentBlock
  tool_call_block : ToolCallBlock → ContentBlock
  tool_result_block : ToolResultBlock → ContentBlock
  extension_block : ExtensionBlock → ContentBlock

abbrev pub type_of : ContentBlock → String
type_of (text_block b) = "text"
type_of (thinking_block b) = "thinking"
type_of (data_block b) = "data"
type_of (hint_block b) = "hint"
type_of (tool_call_block b) = "tool_call"
type_of (tool_result_block b) = "tool_result"
type_of (extension_block b) = "extension"

abbrev pub id_of : ContentBlock → String
id_of (text_block b) = b.id
id_of (thinking_block b) = b.id
id_of (data_block b) = b.id
id_of (hint_block b) = b.id
id_of (tool_call_block b) = b.id
id_of (tool_result_block b) = b.id
id_of (extension_block b) = b.id

pub record TokenUsage : Type 0 where
  pub prompt_tokens : ℕ
  pub completion_tokens : ℕ
  pub total_tokens : ℕ

pub record MsgToken : Type 0 where
  pub usage : TokenUsage
  pub last_call_usage : TokenUsage

pub data MsgName : Type 0 where
  default compact compact_fast : MsgName

pub data Role : Type 0 where
  user assistant system : Role

-- The `seq` of a message before any event touched it, -1 in the source, is 0 here.
pub record Msg : Type 0 where
  pub name : MsgName
  pub content : List ContentBlock
  pub role : Role
  pub id : String
  pub metadata : PyDict
  pub created_at : String
  pub seq : ℕ
  pub token : Option MsgToken
  pub finished_at : Option String
  pub finished_reason : Option String
  pub error : Option PyDict

abbrev pub is_block : String → String → ContentBlock → Bool
is_block type_ id b = type_of b == type_ && id_of b == id

-- `_find_block`
unfoldable pub find_block : String → String → List ContentBlock → Option ContentBlock
find_block type_ id [] = none
find_block type_ id (b ∷ bs) = if is_block type_ id b then some b else find_block type_ id bs

-- What is done in place to the block that `_find_block` finds.
unfoldable pub change_block :
    String → String → (ContentBlock → ContentBlock) → List ContentBlock → List ContentBlock
change_block type_ id f [] = []
change_block type_ id f (b ∷ bs) =
    if is_block type_ id b then f b ∷ bs else b ∷ change_block type_ id f bs

-- The removal of the block that `_find_block` finds; no block before it can be equal to it.
unfoldable pub remove_block : String → String → List ContentBlock → List ContentBlock
remove_block type_ id [] = []
remove_block type_ id (b ∷ bs) = if is_block type_ id b then bs else b ∷ remove_block type_ id bs
