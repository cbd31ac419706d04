-- ===== src/Core/Capabilities/Catalog.antt =====
-- The built-in capabilities of core/policies/capability_catalog.py.
use kitematic.Base.{List, [], ◌∷◌}
use kitematic.Core.Capabilities.{
  Capability, model, tool, code, media, filesystem, network, built_in,
}

abbrev pub chat_generate : Capability
chat_generate = built_in "chat.generate" "Chat Generation" model "low" "Generate chat completions"

abbrev pub chat_stream : Capability
chat_stream = built_in "chat.stream" "Chat Streaming" model "low" "Stream chat completions"

abbrev pub embedding_generate : Capability
embedding_generate =
    built_in "embedding.generate" "Embedding Generation" model "low" "Generate text embeddings"

abbrev pub image_generate : Capability
image_generate =
    built_in "image.generate" "Image Generation" media "medium" "Generate images from prompts"

abbrev pub image_edit : Capability
image_edit = built_in "image.edit" "Image Editing" media "medium" "Edit existing images"

abbrev pub vision_detect : Capability
vision_detect =
    built_in "vision.detect" "Object Detection" media "medium" "Detect objects in images"

abbrev pub vision_caption : Capability
vision_caption = built_in "vision.caption" "Image Captioning" media "low" "Generate image captions"

abbrev pub speech_tts : Capability
speech_tts = built_in "speech.tts" "Text-to-Speech" media "low" "Text-to-speech synthesis"

abbrev pub speech_stt : Capability
speech_stt = built_in "speech.stt" "Speech-to-Text" media "low" "Speech-to-text transcription"

abbrev pub code_generate : Capability
code_generate = built_in "code.generate" "Code Generation" code "medium" "Generate source code"

abbrev pub code_review : Capability
code_review = built_in "code.review" "Code Review" code "medium" "Review source code for issues"

abbrev pub agent_run : Capability
agent_run = built_in "agent.run" "Agent Execution" model "medium" "Run autonomous agent loops"

abbrev pub tool_execute : Capability
tool_execute =
    built_in "tool.execute" "Tool Execution" tool "medium" "Execute external tools and APIs"

abbrev pub filesystem_read : Capability
filesystem_read =
    built_in "filesystem.read" "Filesystem Read" filesystem "low" "Read files from filesystem"

abbrev pub filesystem_write : Capability
filesystem_write =
    built_in "filesystem.write" "Filesystem Write" filesystem "high" "Write files to filesystem"

abbrev pub network_egress : Capability
network_egress =
    built_in "network.egress" "Network Egress" network "critical" "Make outbound network requests"

-- `CapabilityCatalog.all()`
abbrev pub catalog : List Capability
catalog =
    chat_generate ∷ chat_stream ∷ embedding_generate ∷ image_generate ∷ image_edit ∷ vision_detect
    ∷ vision_caption ∷ speech_tts ∷ speech_stt ∷ code_generate ∷ code_review ∷ agent_run
    ∷ tool_execute ∷ filesystem_read ∷ filesystem_write ∷ network_egress ∷ []
