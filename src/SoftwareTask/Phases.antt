-- ===== src/SoftwareTask/Phases.antt =====
-- internal/services/softwaretask/reporter.go: `softwareTaskPhases` and `normalizeActionPhase`.
use oneinstack_panel.Common.{ℕ, ◌+◌, ◌-◌, ◌*◌, ◌/◌, Option, none, some, if◌then◌else◌}
use oneinstack_panel.Text.{Text, codes, text_eq, trim_space, to_lower}
use oneinstack_panel.SoftwareTask.{Status, Phase}

pub record PhaseRange : Type 0 where
  pub status : Status
  pub start : ℕ
  pub end : ℕ
  pub label : Text

abbrev range : Status → ℕ → ℕ → Text → Option PhaseRange
range s a b l = some (record { status = s; start = a; end = b; label = l })

unfoldable pub phase_range : Phase → Option PhaseRange
phase_range Phase.resolving = range Status.resolving 0 5 (codes "获取安装包")
phase_range Phase.precheck = range Status.prechecking 5 12 (codes "环境预检")
phase_range Phase.install = range Status.installing 12 72 (codes "安装软件")
phase_range Phase.upgrade = range Status.upgrading 12 72 (codes "升级软件")
phase_range Phase.uninstall = range Status.uninstalling 5 96 (codes "卸载软件")
phase_range Phase.start = range Status.starting 5 96 (codes "启动服务")
phase_range Phase.stop = range Status.stopping 5 96 (codes "停止服务")
phase_range Phase.restart = range Status.restarting 5 96 (codes "重启服务")
phase_range Phase.reload = range Status.reloading 5 96 (codes "重载服务")
phase_range Phase.configure = range Status.configuring 72 84 (codes "写入配置")
phase_range Phase.config_apply = range Status.configuring 5 96 (codes "安全发布组件配置")
phase_range Phase.verify = range Status.verifying 84 96 (codes "启动并验证")
phase_range Phase.finalizing = range Status.finalizing 96 100 (codes "保存任务状态")
phase_range (Phase.of_status s) = none

-- The switch of `normalizeActionPhase`, over the trimmed and lowered action.
action_phase : Text → Option Phase
action_phase a =
    if text_eq a (codes "precheck")
    then some Phase.precheck
    else if text_eq a (codes "install")
    then some Phase.install
    else if text_eq a (codes "upgrade")
    then some Phase.upgrade
    else if text_eq a (codes "uninstall")
    then some Phase.uninstall
    else if text_eq a (codes "start")
    then some Phase.start
    else if text_eq a (codes "stop")
    then some Phase.stop
    else if text_eq a (codes "restart")
    then some Phase.restart
    else if text_eq a (codes "reload")
    then some Phase.reload
    else if text_eq a (codes "configure")
    then some Phase.configure
    else if text_eq a (codes "configapply")
    then some Phase.config_apply
    else if text_eq a (codes "verify")
    then some Phase.verify
    else none

unfoldable pub normalize_action_phase : Text → Option Phase
unfolding action_phase trim_space to_lower
normalize_action_phase action = action_phase (to_lower (trim_space action))

-- `spec.start + ((spec.end - spec.start) * *phaseProgress / 100)`, or `spec.start`.
abbrev pub progress_at : PhaseRange → Option ℕ → ℕ
progress_at spec none = spec.start
progress_at spec (some p) = spec.start + (spec.end - spec.start) * p / 100
