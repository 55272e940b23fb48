-- ===== src/ApiKeys/Screen/Guide.antt =====
-- What `SetupGuide`, `CodeBlock` and `CopyButton` render; the texts are those of ApiKeys/Guide.antt.
use ops_sys.Base.{Bool, List, [], ◌∷◌, if◌then◌else◌}
use ops_sys.Base.Text.{Text, codes}
use ops_sys.Markup.{Node, text, tag, div, said, button}
use ops_sys.ApiKeys.Guide.{Tab, python, go, CodeBlock, env_block, install, quickstart}
use ops_sys.ApiKeys.Pending.{Live}

-- A handler changes the page and may make calls, copies a text, or opens a tab of the guide.
pub data Act : Type 0 where
  runs : (Live → Live) → Act
  copies : Text → Act
  opens_tab : Tab → Act

-- The open tab, and which of the buttons say that they copied.
pub record GuideState : Type 0 where
  pub tab : Tab
  pub key_copied : Bool
  pub env_copied : Bool
  pub install_copied : Bool
  pub quickstart_copied : Bool

abbrev pub copy_button : Bool → Text → Text → Node Act
copy_button copied t label = button (copies t) (if copied then codes "✓ Copied" else label)

abbrev pub code_block : Bool → CodeBlock → Node Act
code_block copied b = div (
    said (codes "span") b.lang
    ∷ copy_button copied b.code (codes "Copy")
    ∷ tag (codes "pre") (said (codes "code") b.code ∷ [])
    ∷ [])

abbrev pub step_head : Text → Text → Node Act
step_head num title = div (said (codes "span") num ∷ said (codes "span") title ∷ [])

abbrev pub key_reveal : GuideState → Text → Node Act
key_reveal g api_key = div (
    said (codes "span") (codes "Your API key — copy it now, it won't be shown again.")
    ∷ div (said (codes "code") api_key ∷ copy_button g.key_copied api_key (codes "Copy key") ∷ [])
    ∷ [])

abbrev pub env_step : GuideState → Text → Node Act
env_step g api_key = div (
    step_head (codes "1") (codes "Set your environment variable")
    ∷ tag (codes "p") (
        text (codes "Add this to your shell profile or ")
        ∷ said (codes "code") (codes ".env")
        ∷ text (codes " file so every SDK call picks up your key automatically.")
        ∷ [])
    ∷ code_block g.env_copied (record { code = env_block api_key; lang = codes "bash" })
    ∷ [])

abbrev pub install_step : GuideState → Node Act
install_step g = div (
    step_head (codes "2") (codes "Install the SDK")
    ∷ div (button (opens_tab python) (codes "Python") ∷ button (opens_tab go) (codes "Go") ∷ [])
    ∷ code_block g.install_copied (install g.tab)
    ∷ [])

abbrev pub start_step : GuideState → Text → Node Act
start_step g api_key = div (
    step_head (codes "3") (codes "Quick start")
    ∷ tag (codes "p") (
        text (codes "Replace ")
        ∷ said (codes "code") (codes "my-fleet")
        ∷ text (codes " with your project name and ")
        ∷ said (codes "code") (codes "my-device")
        ∷ text (codes " with this device's name, then run.")
        ∷ [])
    ∷ code_block g.quickstart_copied (quickstart g.tab api_key)
    ∷ [])

-- `SetupGuide`
unfoldable pub setup_nodes : GuideState → Text → Act → List (Node Act)
unfolding env_block quickstart
setup_nodes g api_key on_dismiss =
    div (
      key_reveal g api_key
      ∷ tag (codes "hr") []
      ∷ env_step g api_key
      ∷ install_step g
      ∷ start_step g api_key
      ∷ button on_dismiss (codes "Got it — dismiss")
      ∷ [])
    ∷ []
