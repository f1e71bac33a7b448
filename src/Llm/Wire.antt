-- ===== src/Llm/Wire.antt =====
-- llm/llm.go: the wire format of a message, MarshalJSON and UnmarshalJSON up to encoding/json itself, which
-- writes and reads the records of this module.
use turnhive.Base.{
  ◌≡◌, refl, ap, ◌∙◌, Option, none, some, List, [], ◌∷◌, ◌++◌, map, append-nil, Bytes, codes, ◌==◌,
  bytes_eq, bytes_eqb, if◌then◌else◌,
}
use turnhive.Llm.{Message, ToolCall}

pub record ContentPart : Type 0 where
  pub kind : Bytes
  pub text : Bytes
  pub image_url : Option Bytes

-- The content on the wire: absent or null, a string, or parts.
pub data WireContent : Type 0 where
  absent : WireContent
  plain : Bytes → WireContent
  parts : List ContentPart → WireContent

pub record ToolCallWire : Type 0 where
  pub id : Bytes
  pub kind : Bytes
  pub name : Bytes
  pub arguments : Bytes

pub record MessageWire : Type 0 where
  pub role : Bytes
  pub content : WireContent
  pub tool_calls : List ToolCallWire
  pub tool_call_id : Bytes

abbrev pub text_part : Bytes → ContentPart
text_part text = record { kind = codes "text"; text = text; image_url = none }

abbrev pub image_part : Bytes → ContentPart
image_part url = record { kind = codes "image_url"; text = []; image_url = some url }

abbrev pub call_to_wire : ToolCall → ToolCallWire
call_to_wire tc = record {
  id = tc.id;
  kind = codes "function";
  name = tc.name;
  arguments = tc.arguments;
}

abbrev pub call_from_wire : ToolCallWire → ToolCall
call_from_wire w = record { id = w.id; name = w.name; arguments = w.arguments }

abbrev pub content_to_wire : Bytes → List Bytes → WireContent
content_to_wire content [] = plain content
content_to_wire content (u ∷ us) =
    parts ((if content == [] then [] else text_part content ∷ []) ++ map image_part (u ∷ us))

-- MarshalJSON
unfoldable pub to_wire : Message → MessageWire
to_wire m = record {
  role = m.role;
  content = content_to_wire m.content m.images;
  tool_calls = map call_to_wire m.tool_calls;
  tool_call_id = m.tool_call_id;
}

-- The loop over the parts.
unfoldable pub texts_of : List ContentPart → Bytes
texts_of [] = []
texts_of (p ∷ ps) = (if p.kind == codes "text" then p.text else []) ++ texts_of ps

abbrev pub url_of : Option Bytes → List Bytes
url_of none = []
url_of (some u) = u ∷ []

unfoldable pub images_of : List ContentPart → List Bytes
images_of [] = []
images_of (p ∷ ps) =
    (if p.kind == codes "image_url" then url_of p.image_url else []) ++ images_of ps

abbrev pub content_of : WireContent → Bytes
content_of absent = []
content_of (plain text) = text
content_of (parts ps) = texts_of ps

abbrev pub images_in : WireContent → List Bytes
images_in (parts ps) = images_of ps
images_in _ = []

-- UnmarshalJSON
unfoldable pub from_wire : MessageWire → Message
from_wire w = record {
  role = w.role;
  content = content_of w.content;
  tool_calls = map call_from_wire w.tool_calls;
  tool_call_id = w.tool_call_id;
  images = images_in w.content;
}

calls-wire : (tcs : List ToolCall) → map call_from_wire (map call_to_wire tcs) ≡ tcs
calls-wire [] = refl
calls-wire (tc ∷ tcs) = ap (◌∷◌ tc) (calls-wire tcs)

texts_of-images : (us : List Bytes) → texts_of (map image_part us) ≡ []
unfolding texts_of bytes_eqb
texts_of-images [] = refl
texts_of-images (u ∷ us) = texts_of-images us

images_of-images : (us : List Bytes) → images_of (map image_part us) ≡ us
unfolding images_of bytes_eqb
images_of-images [] = refl
images_of-images (u ∷ us) = ap (◌∷◌ u) (images_of-images us)

content-wire :
    (content : Bytes) (images : List Bytes)
    → (content_of (content_to_wire content images) ≡ content)
      × (images_in (content_to_wire content images) ≡ images)
unfolding texts_of images_of bytes_eqb
content-wire content [] = (refl, refl)
content-wire [] (u ∷ us) = (texts_of-images us, ap (◌∷◌ u) (images_of-images us))
content-wire (c ∷ content) (u ∷ us) = (
  ap (λ t. (c ∷ content) ++ t) (texts_of-images us) ∙ append-nil (c ∷ content),
  ap (◌∷◌ u) (images_of-images us),
)

-- A message comes back from the wire as it was, with its tool calls and its images, whether its content
-- went out as a string or as parts.
pub from_wire-to_wire : (m : Message) → from_wire (to_wire m) ≡ m
unfolding from_wire to_wire
from_wire-to_wire m =
    let (content, images) = content-wire m.content m.images in
    rw (calls-wire m.tool_calls, content, images) refl
