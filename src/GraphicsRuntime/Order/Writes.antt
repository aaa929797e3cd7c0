-- ===== src/GraphicsRuntime/Order/Writes.antt =====
-- The same write to two runtimes that hold the same entries.
use sher_graphics.Base.{ℕ, ◌≡◌}
use sher_graphics.Map.{insert, remove}
use sher_graphics.Map.Same.{insert-Same, remove-Same, retain-Same}
use sher_graphics.Kernel.{ObjectId, Platform}
use sher_graphics.GraphicsApi.{GraphicsDevice, Resource, ShaderModule, Pipeline}
use sher_graphics.GpuAbstraction.{GpuDriver}
use sher_graphics.GraphicsRuntime.State.{GraphicsRuntime, CursorState}
use sher_graphics.GraphicsRuntime.Recover.{tear_down}
use sher_graphics.GraphicsRuntime.Order.{IsSame}

module _ {K : Platform} {D : GpuDriver} {R : D.Driver → D.Driver → Type 0} where
  pub driver_written :
      (d e : D.Driver) (rt sh : GraphicsRuntime K D)
      → R d e
      → IsSame R rt sh
      → IsSame R (record rt { driver = d }) (record sh { driver = e })
  driver_written d e rt sh h s = record {
    driver = h;
    devices = s.devices;
    device_caps = s.device_caps;
    resources = s.resources;
    shaders = s.shaders;
    pipelines = s.pipelines;
    timelines = s.timelines;
    presentation = s.presentation;
    audit = s.audit;
    cursors = s.cursors;
  }

  pub device_written :
      (k : ObjectId) (dev : GraphicsDevice) (caps : K.CapabilitySet) (rt sh : GraphicsRuntime K D)
      → IsSame R rt sh
      → IsSame R
          (record rt {
            devices = insert k dev rt.devices;
            device_caps = insert k caps rt.device_caps;
          })
          (record sh {
            devices = insert k dev sh.devices;
            device_caps = insert k caps sh.device_caps;
          })
  device_written k dev caps rt sh s = record {
    driver = s.driver;
    devices = insert-Same rt.devices sh.devices s.devices k dev;
    device_caps = insert-Same rt.device_caps sh.device_caps s.device_caps k caps;
    resources = s.resources;
    shaders = s.shaders;
    pipelines = s.pipelines;
    timelines = s.timelines;
    presentation = s.presentation;
    audit = s.audit;
    cursors = s.cursors;
  }

  pub resource_written :
      (k : ObjectId) (v : Resource) (rt sh : GraphicsRuntime K D)
      → IsSame R rt sh
      → IsSame R
          (record rt { resources = insert k v rt.resources })
          (record sh { resources = insert k v sh.resources })
  resource_written k v rt sh s = record {
    driver = s.driver;
    devices = s.devices;
    device_caps = s.device_caps;
    resources = insert-Same rt.resources sh.resources s.resources k v;
    shaders = s.shaders;
    pipelines = s.pipelines;
    timelines = s.timelines;
    presentation = s.presentation;
    audit = s.audit;
    cursors = s.cursors;
  }

  pub shader_written :
      (k : ObjectId) (v : ShaderModule) (rt sh : GraphicsRuntime K D)
      → IsSame R rt sh
      → IsSame R
          (record rt { shaders = insert k v rt.shaders })
          (record sh { shaders = insert k v sh.shaders })
  shader_written k v rt sh s = record {
    driver = s.driver;
    devices = s.devices;
    device_caps = s.device_caps;
    resources = s.resources;
    shaders = insert-Same rt.shaders sh.shaders s.shaders k v;
    pipelines = s.pipelines;
    timelines = s.timelines;
    presentation = s.presentation;
    audit = s.audit;
    cursors = s.cursors;
  }

  pub pipeline_written :
      (k : ObjectId) (v : Pipeline) (rt sh : GraphicsRuntime K D)
      → IsSame R rt sh
      → IsSame R
          (record rt { pipelines = insert k v rt.pipelines })
          (record sh { pipelines = insert k v sh.pipelines })
  pipeline_written k v rt sh s = record {
    driver = s.driver;
    devices = s.devices;
    device_caps = s.device_caps;
    resources = s.resources;
    shaders = s.shaders;
    pipelines = insert-Same rt.pipelines sh.pipelines s.pipelines k v;
    timelines = s.timelines;
    presentation = s.presentation;
    audit = s.audit;
    cursors = s.cursors;
  }

  pub timeline_written :
      (k : ObjectId) (v : ℕ) (rt sh : GraphicsRuntime K D)
      → IsSame R rt sh
      → IsSame R
          (record rt { timelines = insert k v rt.timelines })
          (record sh { timelines = insert k v sh.timelines })
  timeline_written k v rt sh s = record {
    driver = s.driver;
    devices = s.devices;
    device_caps = s.device_caps;
    resources = s.resources;
    shaders = s.shaders;
    pipelines = s.pipelines;
    timelines = insert-Same rt.timelines sh.timelines s.timelines k v;
    presentation = s.presentation;
    audit = s.audit;
    cursors = s.cursors;
  }

  pub cursor_written :
      (k : ObjectId) (v : CursorState) (rt sh : GraphicsRuntime K D)
      → IsSame R rt sh
      → IsSame R
          (record rt { cursors = insert k v rt.cursors })
          (record sh { cursors = insert k v sh.cursors })
  cursor_written k v rt sh s = record {
    driver = s.driver;
    devices = s.devices;
    device_caps = s.device_caps;
    resources = s.resources;
    shaders = s.shaders;
    pipelines = s.pipelines;
    timelines = s.timelines;
    presentation = s.presentation;
    audit = s.audit;
    cursors = insert-Same rt.cursors sh.cursors s.cursors k v;
  }

  pub resource_removed :
      (k : ObjectId) (rt sh : GraphicsRuntime K D)
      → IsSame R rt sh
      → IsSame R
          (record rt { resources = remove k rt.resources })
          (record sh { resources = remove k sh.resources })
  resource_removed k rt sh s = record {
    driver = s.driver;
    devices = s.devices;
    device_caps = s.device_caps;
    resources = remove-Same rt.resources sh.resources s.resources k;
    shaders = s.shaders;
    pipelines = s.pipelines;
    timelines = s.timelines;
    presentation = s.presentation;
    audit = s.audit;
    cursors = s.cursors;
  }

  pub display_written :
      (p q : K.Display) (rt sh : GraphicsRuntime K D)
      → p ≡ q
      → IsSame R rt sh
      → IsSame R (record rt { presentation = p }) (record sh { presentation = q })
  display_written p q rt sh h s = record {
    driver = s.driver;
    devices = s.devices;
    device_caps = s.device_caps;
    resources = s.resources;
    shaders = s.shaders;
    pipelines = s.pipelines;
    timelines = s.timelines;
    presentation = h;
    audit = s.audit;
    cursors = s.cursors;
  }

  pub audit_written :
      (a b : K.AuditLog) (rt sh : GraphicsRuntime K D)
      → a ≡ b
      → IsSame R rt sh
      → IsSame R (record rt { audit = a }) (record sh { audit = b })
  audit_written a b rt sh h s = record {
    driver = s.driver;
    devices = s.devices;
    device_caps = s.device_caps;
    resources = s.resources;
    shaders = s.shaders;
    pipelines = s.pipelines;
    timelines = s.timelines;
    presentation = s.presentation;
    audit = h;
    cursors = s.cursors;
  }

  pub torn_down :
      (id : ObjectId) (rt sh : GraphicsRuntime K D)
      → IsSame R rt sh
      → IsSame R (tear_down id rt) (tear_down id sh)
  unfolding tear_down
  torn_down id rt sh s = record {
    driver = s.driver;
    devices = remove-Same rt.devices sh.devices s.devices id;
    device_caps = remove-Same rt.device_caps sh.device_caps s.device_caps id;
    resources = retain-Same rt.resources sh.resources s.resources _;
    shaders = retain-Same rt.shaders sh.shaders s.shaders _;
    pipelines = retain-Same rt.pipelines sh.pipelines s.pipelines _;
    timelines = s.timelines;
    presentation = s.presentation;
    audit = s.audit;
    cursors = s.cursors;
  }
