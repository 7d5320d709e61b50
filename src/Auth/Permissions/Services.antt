-- ===== src/Auth/Permissions/Services.antt =====
-- The entries on docker, media import, settings, peers and the rest of API_ROUTE_POLICIES in app/backend/src/services/routePermissions.js.
use red_man.Common.{true, false, List, [], ◌∷◌}
use red_man.Auth.Permissions.{
  word, words, digits, segment, Policy, policy, get, post, put, delete, read, operate,
  docker_mutate, settings, secrets, peers, discovery,
}

-- Docker, media import, settings, peers, readiness, external jobs and events.
abbrev pub service_policies : List Policy
service_policies =
    policy (get ∷ []) true ((word "docker" ∷ words ("status" ∷ "containers" ∷ []) ∷ []) ∷ []) read
    ∷ policy (get ∷ []) false
        ((word "docker" ∷ word "containers" ∷ segment ∷ words ("stats" ∷ "metrics" ∷ []) ∷ []) ∷ [])
        read
    ∷ policy (post ∷ []) false
        ((word "docker"
            ∷ word "containers"
            ∷ segment
            ∷ words ("start" ∷ "stop" ∷ "restart" ∷ [])
            ∷ [])
          ∷ [])
        docker_mutate
    ∷ policy (get ∷ []) true
        ((word "media-import" ∷ words ("drives" ∷ "runs" ∷ "status" ∷ "sources" ∷ []) ∷ []) ∷ [])
        read
    ∷ policy (get ∷ []) false
        ((word "media-import" ∷ word "drives" ∷ word "known" ∷ [])
          ∷ (word "media-import" ∷ word "drives" ∷ digits ∷ [])
          ∷ [])
        read
    ∷ policy (get ∷ []) false
        ((word "media-import" ∷ word "drives" ∷ digits ∷ word "scan" ∷ []) ∷ []) read
    ∷ policy (get ∷ []) false
        ((word "media-import" ∷ word "runs" ∷ digits ∷ words ("progress" ∷ "files" ∷ []) ∷ [])
          ∷ (word "media-import" ∷ word "runs" ∷ digits ∷ [])
          ∷ [])
        read
    ∷ policy (get ∷ []) false ((word "media-import" ∷ word "runs" ∷ word "active" ∷ []) ∷ []) read
    ∷ policy (get ∷ []) false ((word "media-import" ∷ word "online-discover" ∷ segment ∷ []) ∷ [])
        read
    ∷ policy (put ∷ []) false ((word "media-import" ∷ word "drives" ∷ digits ∷ []) ∷ []) operate
    ∷ policy (post ∷ []) false
        ((word "media-import"
            ∷ word "drives"
            ∷ digits
            ∷ words ("scan" ∷ "import" ∷ "eject" ∷ [])
            ∷ [])
          ∷ (word "media-import" ∷ word "runs" ∷ digits ∷ word "cancel" ∷ [])
          ∷ (word "media-import" ∷ word "test-immich" ∷ [])
          ∷ [])
        operate
    ∷ policy (post ∷ []) true ((word "media-import" ∷ word "sources" ∷ []) ∷ []) operate
    ∷ policy (post ∷ []) true ((word "media-import" ∷ word "online-sources" ∷ []) ∷ []) operate
    ∷ policy (put ∷ delete ∷ []) false ((word "media-import" ∷ word "sources" ∷ digits ∷ []) ∷ [])
        operate
    ∷ policy (get ∷ put ∷ []) true ((word "settings" ∷ []) ∷ []) settings
    ∷ policy (get ∷ []) false ((word "settings" ∷ word "public" ∷ []) ∷ []) read
    ∷ policy (get ∷ post ∷ []) false
        ((word "settings" ∷ words ("ntfy-test" ∷ "browser-notify-test" ∷ []) ∷ [])
          ∷ (word "settings"
              ∷ word "ssh"
              ∷ words ("status" ∷ "generate" ∷ "authorize-localhost" ∷ "test" ∷ [])
              ∷ [])
          ∷ (word "settings"
              ∷ word "db"
              ∷ words (
                  "backup" ∷ "backup-all" ∷ "backups" ∷ "recovery-scan" ∷ "recovery-info"
                  ∷ "restore" ∷ [])
              ∷ [])
          ∷ [])
        settings
    ∷ policy (get ∷ []) false ((word "settings" ∷ word "notifications" ∷ word "stream" ∷ []) ∷ [])
        read
    ∷ policy (get ∷ post ∷ []) true ((word "peers" ∷ []) ∷ []) peers
    ∷ policy (get ∷ []) false
        ((word "peers" ∷ words ("connectivity" ∷ "destination-health" ∷ []) ∷ [])
          ∷ (word "peers" ∷ word "audit-log" ∷ word "all" ∷ [])
          ∷ (word "peers" ∷ word "pair" ∷ words ("incoming" ∷ "history" ∷ []) ∷ [])
          ∷ (word "peers" ∷ word "pair" ∷ word "status" ∷ digits ∷ [])
          ∷ (word "peers" ∷ digits ∷ [])
          ∷ (word "peers" ∷ digits ∷ word "audit-log" ∷ [])
          ∷ [])
        peers
    ∷ policy (post ∷ put ∷ delete ∷ []) false
        ((word "peers" ∷ digits ∷ [])
          ∷ (word "peers" ∷ digits ∷ word "regenerate-key" ∷ [])
          ∷ (word "peers" ∷ word "pair" ∷ [])
          ∷ (word "peers" ∷ word "pair" ∷ word "sync" ∷ [])
          ∷ (word "peers" ∷ word "pair" ∷ digits ∷ words ("accept" ∷ "decline" ∷ []) ∷ [])
          ∷ (word "peers" ∷ word "pair" ∷ digits ∷ [])
          ∷ [])
        peers
    ∷ policy (get ∷ []) false ((word "overview" ∷ word "summary" ∷ []) ∷ []) read
    ∷ policy (get ∷ []) false ((word "filesystem" ∷ words ("browse" ∷ "roots" ∷ []) ∷ []) ∷ []) read
    ∷ policy (get ∷ post ∷ []) false
        ((word "discovery" ∷ words ("subnets" ∷ "peers" ∷ "immich" ∷ "clear-cache" ∷ []) ∷ []) ∷ [])
        discovery
    ∷ policy (get ∷ []) true ((word "upgrade-readiness" ∷ []) ∷ []) read
    ∷ policy (post ∷ []) false
        ((word "upgrade-readiness"
            ∷ words ("backup" ∷ "remediate" ∷ "host-plan" ∷ "final-config" ∷ [])
            ∷ [])
          ∷ [])
        settings
    ∷ policy (get ∷ []) true ((word "external-jobs" ∷ []) ∷ []) read
    ∷ policy (get ∷ []) false
        ((word "external-jobs" ∷ word "runs" ∷ []) ∷ (word "external-jobs" ∷ digits ∷ []) ∷ []) read
    ∷ policy (put ∷ delete ∷ []) false ((word "external-jobs" ∷ digits ∷ []) ∷ []) operate
    ∷ policy (post ∷ []) true ((word "external-jobs" ∷ []) ∷ []) secrets
    ∷ policy (post ∷ []) false ((word "external-jobs" ∷ digits ∷ word "regenerate-token" ∷ []) ∷ [])
        secrets
    ∷ policy (get ∷ []) true ((word "events" ∷ []) ∷ []) read
    ∷ policy (get ∷ []) false ((word "events" ∷ word "summary" ∷ []) ∷ []) read
    ∷ policy (get ∷ []) true ((word "status" ∷ []) ∷ []) read
    ∷ []
