-- ===== src/Sites/Guide.antt =====
-- `WebhookGuide` of frontend/app/(dashboard)/sites/[id]/page.tsx: the two files that it offers for copying.
use ventopanel.Base.{◌++◌, Text, text}

-- `JSON` of a push to the branch, which both files send.
abbrev payload : Text → Text
payload branch = text "'{\"ref\":\"refs/heads/" ++ branch ++ text "\"}'"

-- `ghaYaml`
unfoldable pub gha_yaml : Text → Text → Text
gha_yaml url branch =
    text "name: Deploy\n\non:\n  push:\n    branches: [\""
    ++ branch
    ++ text
        "\"]\n\njobs:\n  deploy:\n    runs-on: ubuntu-latest\n    steps:\n      - name: Trigger VentoPanel deploy\n        run: |\n          curl -s -X POST \\\n            -H \"Content-Type: application/json\" \\\n            -d "
    ++ payload branch
    ++ text " \\\n            \""
    ++ url
    ++ text "\""

-- `gitlabYaml`
unfoldable pub gitlab_yaml : Text → Text → Text
gitlab_yaml url branch =
    text "deploy:\n  stage: deploy\n  only:\n    - "
    ++ branch
    ++ text
        "\n  script:\n    - |\n      curl -s -X POST \\\n        -H \"Content-Type: application/json\" \\\n        -d "
    ++ payload branch
    ++ text " \\\n        \""
    ++ url
    ++ text "\""
