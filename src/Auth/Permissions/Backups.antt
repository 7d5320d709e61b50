-- ===== src/Auth/Permissions/Backups.antt =====
-- The entries on accounts, health, backups and rclone of API_ROUTE_POLICIES in app/backend/src/services/routePermissions.js.
use red_man.Common.{true, false, List, [], ◌∷◌}
use red_man.Auth.Permissions.{
  word, words, digits, segment, Policy, policy, get, post, put, delete, anyone, read, account_self,
  operate, restore, settings, secrets, accounts,
}

-- What can be called to get in, and what an account does with itself.
abbrev pub auth_policies : List Policy
auth_policies =
    policy (get ∷ []) false ((word "auth" ∷ word "status" ∷ []) ∷ []) anyone
    ∷ policy (post ∷ []) false
        ((word "auth" ∷ words ("bootstrap" ∷ "login" ∷ "recover" ∷ []) ∷ []) ∷ []) anyone
    ∷ policy (get ∷ []) false ((word "auth" ∷ word "session" ∷ []) ∷ []) account_self
    ∷ policy (post ∷ []) false ((word "auth" ∷ words ("logout" ∷ "password" ∷ []) ∷ []) ∷ [])
        account_self
    ∷ []

-- Accounts, health, the backups and rclone.
abbrev pub backup_policies : List Policy
backup_policies =
    policy (get ∷ post ∷ []) false ((word "auth" ∷ words ("users" ∷ "audit" ∷ []) ∷ []) ∷ [])
      accounts
    ∷ policy (put ∷ []) false ((word "auth" ∷ word "users" ∷ digits ∷ []) ∷ []) accounts
    ∷ policy (post ∷ []) false
        ((word "auth" ∷ word "users" ∷ digits ∷ word "revoke-sessions" ∷ []) ∷ []) accounts
    ∷ policy (get ∷ []) false ((word "health" ∷ word "details" ∷ []) ∷ []) read
    ∷ policy (get ∷ []) true
        ((word "ssd-backup" ∷ words ("shares" ∷ "browse" ∷ "configs" ∷ "runs" ∷ []) ∷ []) ∷ []) read
    ∷ policy (get ∷ []) false ((word "ssd-backup" ∷ word "configs" ∷ digits ∷ []) ∷ []) read
    ∷ policy (get ∷ []) false
        ((word "ssd-backup" ∷ word "runs" ∷ digits ∷ word "progress" ∷ [])
          ∷ (word "ssd-backup" ∷ word "runs" ∷ digits ∷ [])
          ∷ [])
        read
    ∷ policy (get ∷ []) false
        ((word "ssd-backup"
            ∷ word "configs"
            ∷ digits
            ∷ words ("snapshots" ∷ "browse" ∷ "download" ∷ [])
            ∷ [])
          ∷ [])
        read
    ∷ policy (get ∷ []) false ((word "ssd-backup" ∷ word "verification-runs" ∷ digits ∷ []) ∷ [])
        read
    ∷ policy (get ∷ []) false ((word "ssd-backup" ∷ word "restore-drill-runs" ∷ digits ∷ []) ∷ [])
        read
    ∷ policy (post ∷ put ∷ []) false
        ((word "ssd-backup" ∷ word "configs" ∷ digits ∷ [])
          ∷ (word "ssd-backup" ∷ word "configs" ∷ [])
          ∷ [])
        operate
    ∷ policy (delete ∷ []) false ((word "ssd-backup" ∷ word "configs" ∷ digits ∷ []) ∷ []) operate
    ∷ policy (post ∷ []) false
        ((word "ssd-backup"
            ∷ word "configs"
            ∷ digits
            ∷ words ("run" ∷ "prune" ∷ "verify-versions" ∷ [])
            ∷ [])
          ∷ (word "ssd-backup"
              ∷ words ("runs" ∷ "verification-runs" ∷ [])
              ∷ digits
              ∷ word "cancel"
              ∷ [])
          ∷ [])
        operate
    ∷ policy (post ∷ []) false
        ((word "ssd-backup" ∷ word "configs" ∷ digits ∷ word "restore" ∷ []) ∷ []) restore
    ∷ policy (post ∷ []) false
        ((word "ssd-backup" ∷ word "configs" ∷ digits ∷ word "restore-drill" ∷ [])
          ∷ (word "ssd-backup" ∷ word "restore-drill-runs" ∷ digits ∷ word "cancel" ∷ [])
          ∷ [])
        restore
    ∷ policy (get ∷ []) true
        ((word "hyper-backup"
            ∷ words ("jobs" ∷ "runs" ∷ "remote-browse" ∷ "remote-roots" ∷ "remote-shares" ∷ [])
            ∷ [])
          ∷ [])
        read
    ∷ policy (get ∷ []) false
        ((word "hyper-backup" ∷ words ("jobs" ∷ "runs" ∷ []) ∷ digits ∷ word "progress" ∷ [])
          ∷ (word "hyper-backup" ∷ words ("jobs" ∷ "runs" ∷ []) ∷ digits ∷ [])
          ∷ [])
        read
    ∷ policy (post ∷ put ∷ []) false
        ((word "hyper-backup" ∷ word "jobs" ∷ digits ∷ [])
          ∷ (word "hyper-backup" ∷ word "jobs" ∷ [])
          ∷ [])
        operate
    ∷ policy (delete ∷ []) false ((word "hyper-backup" ∷ word "jobs" ∷ digits ∷ []) ∷ []) operate
    ∷ policy (post ∷ []) false
        ((word "hyper-backup" ∷ word "jobs" ∷ digits ∷ word "run" ∷ [])
          ∷ (word "hyper-backup" ∷ word "runs" ∷ digits ∷ word "cancel" ∷ [])
          ∷ (word "hyper-backup" ∷ word "test-connection" ∷ [])
          ∷ [])
        operate
    ∷ policy (get ∷ []) true
        ((word "rclone" ∷ words ("remotes" ∷ "jobs" ∷ "runs" ∷ "providers" ∷ []) ∷ []) ∷ []) read
    ∷ policy (get ∷ []) false ((word "rclone" ∷ word "remote" ∷ segment ∷ word "ls" ∷ []) ∷ []) read
    ∷ policy (get ∷ []) false
        ((word "rclone" ∷ words ("jobs" ∷ "runs" ∷ []) ∷ digits ∷ word "progress" ∷ [])
          ∷ (word "rclone" ∷ words ("jobs" ∷ "runs" ∷ []) ∷ digits ∷ [])
          ∷ [])
        read
    ∷ policy (get ∷ []) false ((word "rclone" ∷ word "remotes" ∷ segment ∷ word "config" ∷ []) ∷ [])
        secrets
    ∷ policy (post ∷ put ∷ delete ∷ []) false
        ((word "rclone" ∷ word "remotes" ∷ segment ∷ [])
          ∷ (word "rclone" ∷ word "remotes" ∷ [])
          ∷ [])
        settings
    ∷ policy (post ∷ []) false ((word "rclone" ∷ word "remotes" ∷ segment ∷ word "test" ∷ []) ∷ [])
        settings
    ∷ policy (post ∷ put ∷ []) false
        ((word "rclone" ∷ word "jobs" ∷ digits ∷ []) ∷ (word "rclone" ∷ word "jobs" ∷ []) ∷ [])
        operate
    ∷ policy (delete ∷ []) false ((word "rclone" ∷ word "jobs" ∷ digits ∷ []) ∷ []) operate
    ∷ policy (post ∷ []) false
        ((word "rclone" ∷ word "jobs" ∷ digits ∷ word "run" ∷ [])
          ∷ (word "rclone" ∷ word "runs" ∷ digits ∷ word "cancel" ∷ [])
          ∷ [])
        operate
    ∷ []
