-- ===== src/ApiKeys/Guide.antt =====
-- `SetupGuide` of pages/ApiKeys/ApiKeysPage.tsx, which shows the secret of a new key once, with the
-- code blocks of its steps, and the buttons that copy them.
pub mod Copy
pub mod Secret
use ops_sys.Base.{ℕ, Bool, true, false, Option, none, some, List, [], ◌∷◌, ◌++◌}
use ops_sys.Base.Text.{Text, codes, join}

pub data Tab : Type 0 where
  python go : Tab

-- Template literals: a line feed between the lines.
abbrev pub lines : List Text → Text
lines = join (10 ∷ [])

unfoldable pub env_block : Text → Text
env_block api_key = codes "export SYSTEMSCALE_API_KEY=\"" ++ (api_key ++ codes "\"")

abbrev pub python_install : Text
python_install = codes "pip install systemscale"

unfoldable pub python_quickstart : Text → List Text
python_quickstart api_key =
    codes "import systemscale"
    ∷ []
    ∷ codes "client = systemscale.init("
    ∷ (codes "    api_key=\"" ++ (api_key ++ codes "\","))
    ∷ codes "    project=\"my-fleet\",   # replace with your project name"
    ∷ codes "    device=\"my-device\",   # replace with this device's name"
    ∷ codes ")"
    ∷ []
    ∷ codes "# Stream telemetry at up to 50 Hz"
    ∷ codes "client.log({\"sensors/temp\": 85.2, \"nav/altitude\": 102.3})"
    ∷ []
    ∷ codes "# Send an alert to all operators"
    ∷ codes "client.alert(\"Low battery\", level=\"warning\")"
    ∷ []
    ∷ codes "# Request human-in-the-loop approval"
    ∷ codes "response = client.request_assistance(\"Obstacle detected\", timeout=60)"
    ∷ codes "if response.approved:"
    ∷ codes "    print(\"Proceed:\", response.instruction)"
    ∷ []

abbrev pub go_install : Text
go_install = codes "go get github.com/systemscale/sdk/go/systemscale"

unfoldable pub go_quickstart : Text → List Text
go_quickstart api_key =
    codes "package main"
    ∷ []
    ∷ codes "import ("
    ∷ codes "    \"time\""
    ∷ codes "    \"github.com/systemscale/sdk/go/systemscale\""
    ∷ codes ")"
    ∷ []
    ∷ codes "func main() {"
    ∷ codes "    client, _ := systemscale.Init(systemscale.Config{"
    ∷ (codes "        APIKey:  \"" ++ (api_key ++ codes "\","))
    ∷ codes "        Project: \"my-fleet\",  // replace with your project name"
    ∷ codes "        Device:  \"my-device\", // replace with this device's name"
    ∷ codes "    })"
    ∷ []
    ∷ codes "    // Stream telemetry"
    ∷ codes "    client.Log(map[string]any{"
    ∷ codes "        \"sensors/temp\":  85.2,"
    ∷ codes "        \"nav/altitude\":  102.3,"
    ∷ codes "    })"
    ∷ []
    ∷ codes "    // Send an alert to all operators"
    ∷ codes "    client.Alert(\"Low battery\","
    ∷ codes "        systemscale.WithAlertLevel(\"warning\"))"
    ∷ []
    ∷ codes "    time.Sleep(time.Second) // let background sender flush"
    ∷ codes "}"
    ∷ []

-- `CodeBlock`: its button copies the code that it shows.
pub record CodeBlock : Type 0 where
  pub code : Text
  pub lang : Text

abbrev pub install : Tab → CodeBlock
install python = record { code = python_install; lang = codes "bash" }
install go = record { code = go_install; lang = codes "bash" }

unfoldable pub quickstart : Tab → Text → CodeBlock
unfolding python_quickstart go_quickstart
quickstart python api_key = record {
  code = lines (python_quickstart api_key);
  lang = codes "python";
}
quickstart go api_key = record { code = lines (go_quickstart api_key); lang = codes "go" }

-- What the guide shows: the key, and the blocks of its three steps.
pub record Guide : Type 0 where
  pub key : Text
  pub blocks : List CodeBlock

unfoldable pub setup_guide : Tab → Text → Guide
unfolding env_block quickstart
setup_guide tab api_key = record {
  key = api_key;
  blocks =
      record { code = env_block api_key; lang = codes "bash" }
      ∷ install tab
      ∷ quickstart tab api_key
      ∷ [];
}
