-- ===== src/Tests/Texts.antt =====
-- Runs of strutil/truncate.go and of the content blocks of llm/message.go.
use sp4rk.Base.{[], ◌∷◌, codes, length, ◌≡◌, refl, arith}
use sp4rk.Llm.Message.{Message, ContentBlock, user}
use sp4rk.Strutil.{truncate_utf8, trim_right, truncate_utf8_at_line_boundary}
use sp4rk.Strutil.Bounds.{length-truncate_utf8_one}

truncations :
    (truncate_utf8 (codes "abcd") 3 ≡ codes "ab…")
    × (truncate_utf8_at_line_boundary (codes "ab\ncd\nef") 7 ≡ codes "ab\ncd\n")
    × (trim_right (codes "ab c \n") ≡ codes "ab c")
unfolding truncate_utf8 truncate_utf8_at_line_boundary trim_right
truncations = (refl, refl, refl)

length-truncate_utf8_one_example : length (truncate_utf8 (codes "abcd") 1) ≡ 2
length-truncate_utf8_one_example = length-truncate_utf8_one (codes "abcd") (omega arith)

abbrev image : ContentBlock
image = record {
  kind = codes "image";
  text = [];
  image_b64 = codes "aGk=";
  media_type = codes "image/png";
}

abbrev picture : Message
picture = record {
  role = user;
  content = codes "What is this?";
  content_blocks = image ∷ [];
  reasoning_content = [];
  tool_calls = [];
  tool_call_id = [];
  reasoning_items = [];
}
